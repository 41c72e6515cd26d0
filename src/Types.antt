-- ===== src/Types.antt =====
-- Values that the backend hands out (src/backend/Types.h). A `uint256` and an account are numbers,
-- a blob is the list of its bytes.
use clio_migrator.Prelude.{ℕ, List, [], ◌∷◌, Bool, true, false, Option}

abbrev pub Blob : Type 0
Blob = List ℕ

pub record LedgerObject : Type 0 where
  pub key : ℕ
  pub blob : Blob

pub record LedgerPage : Type 0 where
  pub objects : List LedgerObject
  pub cursor : Option ℕ

pub record TransactionAndMetadata : Type 0 where
  pub transaction : Blob
  pub metadata : Blob
  pub ledger_sequence : ℕ
  pub date : ℕ

pub record TransactionsCursor : Type 0 where
  pub ledger_sequence : ℕ
  pub transaction_index : ℕ

pub record TransactionsAndCursor : Type 0 where
  pub txns : List TransactionAndMetadata
  pub cursor : Option TransactionsCursor

pub record Nft : Type 0 where
  pub token_id : ℕ
  pub ledger_sequence : ℕ
  pub owner : ℕ
  pub uri : Blob
  pub is_burned : Bool

pub record LedgerRange : Type 0 where
  pub min_sequence : ℕ
  pub max_sequence : ℕ

-- `blob.size() == 0`
abbrev pub is_empty : Blob → Bool
is_empty [] = true
is_empty (b ∷ bs) = false

abbrev pub first_key : ℕ
first_key = 0

-- 2 ^ 256 - 1
abbrev pub last_key : ℕ
last_key = 0xFFFFFFFFFFFFFFFFFFFFFFFFFFFFFFFFFFFFFFFFFFFFFFFFFFFFFFFFFFFFFFFF
