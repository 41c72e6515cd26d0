-- ===== src/Nft/Sample.antt =====
-- A small stand-in for the ripple library (see Ripple.antt), whose objects are told apart by name.
use clio_migrator.Prelude.{ℕ, ◌+◌, List, [], ◌∷◌, Bool, true, false}
use clio_migrator.Types.{Blob}
use clio_migrator.Outcome.{Outcome, returns, throws, library_error}
use clio_migrator.Nft.Algorithms.{sort}
use clio_migrator.Ripple.{
  Ripple, SField, TxType, sf_ledger_entry_type, sf_ledger_index, sf_created_node, sf_modified_node,
  sf_deleted_node, sf_new_fields, sf_previous_fields, sf_final_fields, sf_nftokens, sf_nftoken_id,
  sf_uri, sf_nftoken_sell_offer, nftoken_mint, nftoken_burn, nftoken_accept_offer,
  nftoken_cancel_offer, other_type,
}

pub data Thing : Type 0 where
  mint_tx burn_tx accept_tx cancel_tx other_thing : Thing
  page page_before page_after buyer_page deleted_page emptied old_token new_token : Thing
  sell_offer sell_fields offer_a offer_b fields_a fields_b : Thing

pub data Meta : Type 0 where
  mint_meta burn_meta accept_meta cancel_meta : Meta

abbrev missing : {A : Type 0} → Outcome A
missing = throws (library_error 0)

abbrev entry_type : Thing → SField → Outcome ℕ
entry_type page sf_ledger_entry_type = returns 80
entry_type page_after sf_ledger_entry_type = returns 80
entry_type buyer_page sf_ledger_entry_type = returns 80
entry_type deleted_page sf_ledger_entry_type = returns 80
entry_type sell_offer sf_ledger_entry_type = returns 55
entry_type offer_a sf_ledger_entry_type = returns 55
entry_type offer_b sf_ledger_entry_type = returns 55
entry_type _ _ = returns 1

abbrev hash_field : Thing → SField → Outcome ℕ
hash_field page sf_ledger_index = returns 500
hash_field buyer_page sf_ledger_index = returns 501
hash_field sell_offer sf_ledger_index = returns 900
hash_field burn_tx sf_nftoken_id = returns 700
hash_field accept_tx sf_nftoken_sell_offer = returns 900
hash_field old_token sf_nftoken_id = returns 700
hash_field new_token sf_nftoken_id = returns 701
hash_field sell_fields sf_nftoken_id = returns 701
hash_field fields_a sf_nftoken_id = returns 700
hash_field fields_b sf_nftoken_id = returns 701
hash_field _ _ = missing

abbrev bytes_field : Thing → SField → Outcome Blob
bytes_field mint_tx sf_uri = returns (4 ∷ [])
bytes_field old_token sf_uri = returns (4 ∷ [])
bytes_field new_token sf_uri = returns (4 ∷ [])
bytes_field _ _ = missing

abbrev array_field : Thing → SField → Outcome (List Thing)
array_field page_before sf_nftokens = returns (old_token ∷ [])
array_field page_after sf_nftokens = returns (old_token ∷ new_token ∷ [])
array_field _ _ = missing

abbrev object_field : Thing → SField → Outcome Thing
object_field page sf_previous_fields = returns page_before
object_field page sf_final_fields = returns page_after
object_field buyer_page sf_new_fields = returns page_after
object_field deleted_page sf_previous_fields = returns emptied
object_field sell_offer sf_final_fields = returns sell_fields
object_field offer_a sf_final_fields = returns fields_a
object_field offer_b sf_final_fields = returns fields_b
object_field _ _ = missing

abbrev present : Thing → SField → Bool
present page sf_previous_fields = true
present deleted_page sf_previous_fields = true
present page_before sf_nftokens = true
present _ _ = false

abbrev name_of : Thing → SField
name_of buyer_page = sf_created_node
name_of deleted_page = sf_deleted_node
name_of _ = sf_modified_node

abbrev type_of : Thing → TxType
type_of mint_tx = nftoken_mint
type_of burn_tx = nftoken_burn
type_of accept_tx = nftoken_accept_offer
type_of cancel_tx = nftoken_cancel_offer
type_of _ = other_type 0

abbrev nodes_of : Meta → List Thing
nodes_of mint_meta = page ∷ []
nodes_of burn_meta = page ∷ []
nodes_of accept_meta = sell_offer ∷ buyer_page ∷ []
nodes_of cancel_meta = offer_a ∷ offer_b ∷ offer_a ∷ []

abbrev parse_tx : Blob → Outcome Thing
parse_tx [] = returns other_thing
parse_tx (b ∷ bs) = returns mint_tx

abbrev parse_entry : Blob → Outcome Thing
parse_entry [] = returns other_thing
parse_entry (b ∷ bs) = returns page_after

abbrev pub sample : Ripple
sample = record {
  StObject = Thing;
  TxMeta = Meta;
  get_field_u16 = entry_type;
  get_field_h256 = hash_field;
  get_field_vl = bytes_field;
  get_account_id = λ o f. returns 600;
  get_field_array = array_field;
  peek_at_field = object_field;
  is_field_present = present;
  get_f_name = name_of;
  get_txn_type = type_of;
  get_transaction_id = λ o. 77;
  get_nodes = nodes_of;
  get_result_ter = λ m. 0;
  get_lgr_seq = λ m. 6;
  get_index = λ m. 2;
  get_affected_accounts = λ meta. 1500 ∷ [];
  account_from_void = λ key. key + 1000;
  parse_st_tx = parse_tx;
  parse_tx_meta = λ id seq blob. returns mint_meta;
  parse_st_ledger_entry = λ blob key. parse_entry blob;
  get_issuer = λ id. 11;
  get_taxon = λ id. 12;
  str_hex = λ blob. blob;
  lt_nftoken_page = 80;
  lt_nftoken_offer = 55;
  tes_success = 0;
  std_sort = λ before. sort before;
}
