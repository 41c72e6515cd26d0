-- ===== src/Nft/Burn.antt =====
-- NFTokenBurn transactions (getNFTokenBurnData of src/etl/NFTHelpers.cpp).
pub mod Owner
use clio_migrator.Prelude.{
  ℕ, ◌≡◌, refl, inl, inr, ◌⊎◌, List, [], ◌∷◌, Bool, true, false, not, ◌||◌, Option, none, some,
  arith, ◌==◌, if◌then◌else◌,
}
use clio_migrator.Outcome.{Outcome, returns, throws, unknown_burn_owner, ◌>>=◌, >>=-eq-returns}
use clio_migrator.Ripple.{
  Ripple, is_created, is_deleted, sf_ledger_entry_type, sf_ledger_index, sf_previous_fields,
  sf_final_fields, sf_nftokens, sf_nftoken_id,
}
use clio_migrator.Nft.Data.{NftData, transactions_data, moved_data, has_token}

module _ (r : Ripple) where
  open r use {
    StObject, TxMeta, get_field_u16, get_field_h256, get_field_array, peek_at_field,
    is_field_present, get_f_name, get_transaction_id, get_nodes, account_from_void, lt_nftoken_page,
  }

  -- The tokens of a page before the transaction, where the node tells them.
  unfoldable pub previous_tokens : StObject → Outcome (Option (List StObject))
  previous_tokens node =
      if is_field_present node sf_previous_fields
      then (do
        previous ← peek_at_field node sf_previous_fields
        if is_field_present previous sf_nftokens
            then (do nfts ← get_field_array previous sf_nftokens; returns (some nfts))
            else returns none)
      else if is_deleted (get_f_name node)
      then (do
        final ← peek_at_field node sf_final_fields
        nfts ← get_field_array final sf_nftokens
        returns (some nfts))
      else returns none

  unfoldable pub lists_token : ℕ → Option (List StObject) → Outcome Bool
  lists_token token_id none = returns false
  lists_token token_id (some nfts) = has_token r token_id nfts

  -- Whether a node is the page that held the token: one round of the loop.
  unfoldable pub held_token : ℕ → StObject → Outcome Bool
  unfolding previous_tokens lists_token
  held_token token_id node = do
    entry_type ← get_field_u16 node sf_ledger_entry_type
    if not (entry_type == lt_nftoken_page) || is_created (get_f_name node)
        then returns false
        else (do nfts ← previous_tokens node; lists_token token_id nfts)

  unfoldable pub burn_owner : ℕ → ℕ → List StObject → Outcome ℕ
  unfolding held_token
  burn_owner tx_id token_id [] = throws (unknown_burn_owner tx_id)
  burn_owner tx_id token_id (node ∷ nodes) =
      let rest = burn_owner tx_id token_id nodes in
      do
        held ← held_token token_id node
        if held
            then (do index ← get_field_h256 node sf_ledger_index; returns (account_from_void index))
            else rest

  unfoldable pub get_nftoken_burn_data : TxMeta → StObject → Outcome NftData
  unfolding burn_owner
  get_nftoken_burn_data meta tx = do
    token_id ← get_field_h256 tx sf_nftoken_id
    owner ← burn_owner (get_transaction_id tx) token_id (get_nodes meta)
    returns (
      transactions_data r token_id meta (get_transaction_id tx) ∷ [],
      some (moved_data r token_id owner meta true),
    )
