-- ===== src/Nft/AcceptOffer.antt =====
-- NFTokenAcceptOffer transactions (getNFTokenAcceptOfferData of src/etl/NFTHelpers.cpp).
pub mod Owner
use clio_migrator.Prelude.{
  ℕ, ◌≡◌, ◌≢◌, ◌⊎◌, inl, inr, sym, ap, ◌∙◌, Bool-cases, arith, List, [], ◌∷◌, true, false, not,
  ◌||◌, Option, none, some, ◌==◌, if◌then◌else◌,
}
use clio_migrator.Outcome.{
  Outcome, returns, throws, unexpected_accept_data, ◌>>=◌, >>=-eq-returns, returns-injective,
}
use clio_migrator.Ripple.{
  Ripple, SField, is_created, is_deleted, sf_ledger_entry_type, sf_ledger_index, sf_new_fields,
  sf_final_fields, sf_nftokens, sf_nftoken_id, sf_owner, sf_nftoken_buy_offer,
  sf_nftoken_sell_offer,
}
use clio_migrator.Nft.Data.{NftData, transactions_data, moved_data, has_token}

module _ (r : Ripple) where
  open r use {
    StObject, TxMeta, get_field_u16, get_field_h256, get_account_id, get_field_array, peek_at_field,
    is_field_present, get_f_name, get_transaction_id, get_nodes, account_from_void, lt_nftoken_page,
  }

  -- `std::find_if` for the node of an offer that a field of the transaction names.
  unfoldable pub find_offer : StObject → SField → List StObject → Outcome StObject
  find_offer tx field [] = throws (unexpected_accept_data (get_transaction_id tx))
  find_offer tx field (node ∷ nodes) =
      let rest = find_offer tx field nodes in
      do
        index ← get_field_h256 node sf_ledger_index
        offer ← get_field_h256 tx field
        if index == offer then returns node else rest

  unfoldable pub offered_token : StObject → Outcome ℕ
  offered_token offer = do
    final ← peek_at_field offer sf_final_fields
    get_field_h256 final sf_nftoken_id

  unfoldable pub offer_owner : StObject → Outcome ℕ
  offer_owner offer = do final ← peek_at_field offer sf_final_fields; get_account_id final sf_owner

  unfoldable pub current_tokens : StObject → Outcome (List StObject)
  current_tokens node =
      if is_created (get_f_name node)
      then (do fields ← peek_at_field node sf_new_fields; get_field_array fields sf_nftokens)
      else (do fields ← peek_at_field node sf_final_fields; get_field_array fields sf_nftokens)

  -- The owner of a page other than the seller's that now lists the token: one round of the loop.
  unfoldable pub page_buyer : ℕ → ℕ → StObject → Outcome (Option ℕ)
  unfolding current_tokens
  page_buyer token_id seller node = do
    entry_type ← get_field_u16 node sf_ledger_entry_type
    if not (entry_type == lt_nftoken_page) || is_deleted (get_f_name node)
        then returns none
        else (do
          index ← get_field_h256 node sf_ledger_index
          if account_from_void index == seller then returns none else (do
            nfts ← current_tokens node
            listed ← has_token r token_id nfts
            returns (if listed then some (account_from_void index) else none)))

  unfoldable pub find_buyer : ℕ → ℕ → ℕ → List StObject → Outcome ℕ
  unfolding page_buyer
  find_buyer tx_id token_id seller [] = throws (unexpected_accept_data tx_id)
  find_buyer tx_id token_id seller (node ∷ nodes) =
      let rest = find_buyer tx_id token_id seller nodes in
      do
        buyer ← page_buyer token_id seller node
        elim buyer [ none ↦ rest | some owner ↦ returns owner ]

  abbrev pub accepted : TxMeta → StObject → ℕ → ℕ → NftData
  accepted meta tx token_id owner = (
    transactions_data r token_id meta (get_transaction_id tx) ∷ [],
    some (moved_data r token_id owner meta false),
  )

  unfoldable pub accept_buy_offer : TxMeta → StObject → Outcome NftData
  unfolding find_offer offered_token offer_owner
  accept_buy_offer meta tx = do
    offer ← find_offer tx sf_nftoken_buy_offer (get_nodes meta)
    token_id ← offered_token offer
    owner ← offer_owner offer
    returns (accepted meta tx token_id owner)

  unfoldable pub accept_sell_offer : TxMeta → StObject → Outcome NftData
  unfolding find_offer offered_token offer_owner find_buyer
  accept_sell_offer meta tx = do
    offer ← find_offer tx sf_nftoken_sell_offer (get_nodes meta)
    token_id ← offered_token offer
    seller ← offer_owner offer
    owner ← find_buyer (get_transaction_id tx) token_id seller (get_nodes meta)
    returns (accepted meta tx token_id owner)

  unfoldable pub get_nftoken_accept_offer_data : TxMeta → StObject → Outcome NftData
  unfolding accept_buy_offer accept_sell_offer
  get_nftoken_accept_offer_data meta tx =
      if is_field_present tx sf_nftoken_buy_offer
      then accept_buy_offer meta tx
      else accept_sell_offer meta tx
