-- ===== src/Nft/FromTx.antt =====
-- The NFT data of a transaction (getNFTDataFromTx of src/etl/NFTHelpers.cpp).
use clio_migrator.Prelude.{ℕ, ◌≡◌, List, [], ◌∷◌, true, false, none, some, ◌==◌, if◌then◌else◌}
use clio_migrator.Types.{Blob}
use clio_migrator.Outcome.{Outcome, returns}
use clio_migrator.Ripple.{
  Ripple, TxType, nftoken_mint, nftoken_burn, nftoken_accept_offer, nftoken_cancel_offer,
  nftoken_create_offer, other_type, sf_uri, sf_nftoken_id,
}
use clio_migrator.Nft.Data.{
  NftData, NftTransactionsData, transactions_data, minted_data, moved_data,
}
use clio_migrator.Nft.Mint.{get_nftoken_mint_data}
use clio_migrator.Nft.Burn.{get_nftoken_burn_data}
use clio_migrator.Nft.AcceptOffer.{get_nftoken_accept_offer_data}
use clio_migrator.Nft.Offers.{get_nftoken_cancel_offer_data, get_nftoken_create_offer_data}

module _ (r : Ripple) where
  open r use {
    StObject, TxMeta, get_txn_type, get_result_ter, tes_success, get_nodes, get_transaction_id,
    get_field_vl, get_field_h256, account_from_void,
  }

  unfoldable pub data_by_type : TxType → TxMeta → StObject → Outcome NftData
  data_by_type nftoken_mint meta tx = get_nftoken_mint_data r meta tx
  data_by_type nftoken_burn meta tx = get_nftoken_burn_data r meta tx
  data_by_type nftoken_accept_offer meta tx = get_nftoken_accept_offer_data r meta tx
  data_by_type nftoken_cancel_offer meta tx = get_nftoken_cancel_offer_data r meta tx
  data_by_type nftoken_create_offer meta tx = get_nftoken_create_offer_data r meta tx
  data_by_type (other_type n) meta tx = returns ([], none)

  unfoldable pub get_nft_data_from_tx : TxMeta → StObject → Outcome NftData
  unfolding data_by_type
  get_nft_data_from_tx meta tx =
      if get_result_ter meta == tes_success
      then data_by_type (get_txn_type tx) meta tx
      else returns ([], none)

  abbrev link : TxMeta → StObject → ℕ → List NftTransactionsData
  link meta tx token_id = transactions_data r token_id meta (get_transaction_id tx) ∷ []

  -- What a successful transaction of each type gives: the links, and the record of a token that
  -- only a mint, a burn or an accepted offer has. The URI is set by a mint alone, and only a burn
  -- marks the token as burned.
  abbrev pub Gives : TxType → TxMeta → StObject → NftData → Type 0
  Gives nftoken_mint meta tx d =
      (t : ℕ) × (o : ℕ) × (uri : Blob) × (get_field_vl tx sf_uri ≡ returns uri)
      × (d ≡ (link meta tx t, some (minted_data r t o uri meta)))
  Gives nftoken_burn meta tx d =
      (t : ℕ) × (o : ℕ) × (get_field_h256 tx sf_nftoken_id ≡ returns t)
      × (d ≡ (link meta tx t, some (moved_data r t o meta true)))
  Gives nftoken_accept_offer meta tx d =
      (t : ℕ) × (o : ℕ) × (d ≡ (link meta tx t, some (moved_data r t o meta false)))
  Gives nftoken_cancel_offer meta tx d = d.1 ≡ none
  Gives nftoken_create_offer meta tx d =
      (t : ℕ) × (get_field_h256 tx sf_nftoken_id ≡ returns t) × (d ≡ (link meta tx t, none))
  Gives (other_type n) meta tx d = d ≡ ([], none)
