-- ===== src/Backend/LedgerWrites.antt =====
-- The rows of a ledger (doWriteLedgerObject, writeSuccessor, writeLedger,
-- writeAccountTransactions, writeNFTTransactions and writeTransaction of
-- src/backend/CassandraBackend.cpp). Each row is an asynchronous write of its own; the functions
-- give the rows in the order in which they are sent.
pub mod RoundTrip
mod Tests
use clio_migrator.Prelude.{ℕ, List, [], ◌∷◌, ◌++◌, Bool, true, false, Option, none, some}
use clio_migrator.Types.{Blob, TransactionsCursor, LedgerRange}
use clio_migrator.Nft.Data.{NftTransactionsData}

-- The prepared statements that insert, with what is bound to them.
pub data Insert : Type 0 where
  -- the ledger's sequence and the key
  insert_diff : ℕ → ℕ → Insert
  insert_object : ℕ → ℕ → Blob → Insert
  insert_successor : ℕ → ℕ → ℕ → Insert
  insert_ledger_header : ℕ → Blob → Insert
  insert_ledger_hash : ℕ → ℕ → Insert
  insert_account_tx insert_nft_tx : ℕ → TransactionsCursor → ℕ → Insert
  insert_ledger_transaction : ℕ → ℕ → Insert
  insert_transaction : ℕ → ℕ → ℕ → Blob → Blob → Insert

pub record AccountTransactionsData : Type 0 where
  -- a `flat_set`
  pub accounts : List ℕ
  pub ledger_sequence : ℕ
  pub transaction_index : ℕ
  pub tx_hash : ℕ

-- The difference to the ledger before is kept only if there is one.
abbrev pub diff_rows : Option LedgerRange → ℕ → ℕ → List Insert
diff_rows none key seq = []
diff_rows (some r) key seq = insert_diff seq key ∷ []

unfoldable pub do_write_ledger_object : Option LedgerRange → ℕ → ℕ → Blob → List Insert
do_write_ledger_object range key seq blob =
    diff_rows range key seq ++ (insert_object key seq blob ∷ [])

unfoldable pub write_successor : ℕ → ℕ → ℕ → List Insert
write_successor key seq successor = insert_successor key seq successor ∷ []

-- The rows, and the new `ledgerSequence_`.
unfoldable pub write_ledger : ℕ → ℕ → Blob → List Insert × ℕ
write_ledger seq hash header =
    (insert_ledger_header seq header ∷ insert_ledger_hash hash seq ∷ [], seq)

abbrev pub account_rows : TransactionsCursor → ℕ → List ℕ → List Insert
account_rows at hash [] = []
account_rows at hash (a ∷ accounts) = insert_account_tx a at hash ∷ account_rows at hash accounts

abbrev pub position : AccountTransactionsData → TransactionsCursor
position d = record { ledger_sequence = d.ledger_sequence; transaction_index = d.transaction_index }

unfoldable pub write_account_transactions : List AccountTransactionsData → List Insert
write_account_transactions [] = []
write_account_transactions (d ∷ ds) =
    account_rows (position d) d.tx_hash d.accounts ++ write_account_transactions ds

abbrev pub nft_position : NftTransactionsData → TransactionsCursor
nft_position d = record {
  ledger_sequence = d.ledger_sequence;
  transaction_index = d.transaction_index;
}

unfoldable pub write_nft_transactions : List NftTransactionsData → List Insert
write_nft_transactions [] = []
write_nft_transactions (d ∷ ds) =
    insert_nft_tx d.token_id (nft_position d) d.tx_hash ∷ write_nft_transactions ds

unfoldable pub write_transaction : ℕ → ℕ → ℕ → Blob → Blob → List Insert
write_transaction hash seq date transaction metadata =
    insert_ledger_transaction seq hash ∷ insert_transaction hash seq date transaction metadata ∷ []
