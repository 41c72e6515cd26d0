-- ===== src/Ripple.antt =====
-- The part of the ripple library that the program calls (ripple/protocol: STObject, STTx, TxMeta,
-- STLedgerEntry, AccountID). It is not part of this repository, so it is a parameter: a type of
-- objects and the accessors that the program uses. An accessor that may throw returns an outcome.
use clio_migrator.Prelude.{ℕ, List, Bool, true, false}
use clio_migrator.Types.{Blob}
use clio_migrator.Outcome.{Outcome}

-- The names of fields that the program mentions.
pub data SField : Type 0 where
  sf_ledger_entry_type sf_ledger_index : SField
  sf_created_node sf_modified_node sf_deleted_node : SField
  sf_new_fields sf_previous_fields sf_final_fields : SField
  sf_nftokens sf_nftoken_id sf_uri sf_owner : SField
  sf_nftoken_buy_offer sf_nftoken_sell_offer : SField

-- The types of transaction that the program tells apart.
pub data TxType : Type 0 where
  nftoken_mint nftoken_burn nftoken_accept_offer nftoken_cancel_offer nftoken_create_offer : TxType
  other_type : ℕ → TxType

pub record Ripple : Type 1 where
  pub StObject : Type 0
  pub TxMeta : Type 0
  pub get_field_u16 : StObject → SField → Outcome ℕ
  pub get_field_h256 : StObject → SField → Outcome ℕ
  pub get_field_vl : StObject → SField → Outcome Blob
  pub get_account_id : StObject → SField → Outcome ℕ
  pub get_field_array : StObject → SField → Outcome (List StObject)
  -- `peekAtField(f).downcast<STObject>()`
  pub peek_at_field : StObject → SField → Outcome StObject
  pub is_field_present : StObject → SField → Bool
  pub get_f_name : StObject → SField
  -- A transaction is an object with a type and a hash.
  pub get_txn_type : StObject → TxType
  pub get_transaction_id : StObject → ℕ
  pub get_nodes : TxMeta → List StObject
  pub get_result_ter : TxMeta → ℕ
  pub get_lgr_seq : TxMeta → ℕ
  pub get_index : TxMeta → ℕ
  -- a `flat_set`, ascending
  pub get_affected_accounts : TxMeta → List ℕ
  -- `AccountID::fromVoid` on the bytes of a key: the account in its first 20 bytes.
  pub account_from_void : ℕ → ℕ
  -- The constructors that parse bytes.
  pub parse_st_tx : Blob → Outcome StObject
  pub parse_tx_meta : ℕ → ℕ → Blob → Outcome TxMeta
  pub parse_st_ledger_entry : Blob → ℕ → Outcome StObject
  -- `nft::getIssuer` and `nft::getTaxon`
  pub get_issuer : ℕ → ℕ
  pub get_taxon : ℕ → ℕ
  -- `strHex`: the characters of the hexadecimal text of some bytes
  pub str_hex : Blob → List ℕ
  pub lt_nftoken_page : ℕ
  pub lt_nftoken_offer : ℕ
  pub tes_success : ℕ
  -- `std::sort` of the standard library, where the comparison leaves the order open
  pub std_sort : {A : Type 0} → (A → A → Bool) → List A → List A

abbrev pub is_created : SField → Bool
is_created sf_created_node = true
is_created _ = false

abbrev pub is_deleted : SField → Bool
is_deleted sf_deleted_node = true
is_deleted _ = false
