-- ===== src/Backend/Paging.antt =====
-- Pages of the transactions of an account or a token (fetchAccountTransactions and
-- fetchNFTTransactions of src/backend/CassandraBackend.cpp).
pub mod Order
pub mod Client
pub mod Walk
pub mod Complete
mod Tests
use clio_migrator.Prelude.{
  ℕ, zero, suc, ◌+◌, ◌%◌, ◌^◌, List, [], ◌∷◌, Bool, true, false, Option, none, some, ◌==◌, length,
  map, if◌then◌else◌,
}
use clio_migrator.Types.{
  TransactionAndMetadata, TransactionsCursor, TransactionsAndCursor, LedgerRange,
}
use clio_migrator.Outcome.{Outcome, returns, throws}
use clio_migrator.Database.{Cassandra, World, M, ◌>>=◌, pure, ask_outcome}
use clio_migrator.Backend.Reads.{fetch_transactions}

-- A row of account_tx or nf_token_transactions, without its first column.
pub record TxRow : Type 0 where
  pub hash : ℕ
  pub seq_idx : TransactionsCursor

-- A prepared statement at a time, with the account or token, the bound of seq_idx and the limit.
abbrev pub TxQuery : Type 0
TxQuery = ℕ → ℕ → TransactionsCursor → ℕ → Outcome (List TxRow)

pub record TxTables : Type 0 where
  -- seq_idx >= ?, ORDER BY seq_idx ASC
  pub select_account_tx_forward : TxQuery
  -- seq_idx < ?, in the order of the table, which is descending
  pub select_account_tx : TxQuery
  pub select_nft_tx_forward : TxQuery
  pub select_nft_tx : TxQuery

-- Where the query starts: at the cursor, or at the placeholder.
unfoldable pub start_cursor : Bool → Option TransactionsCursor → TransactionsCursor
start_cursor forward (some cursor) = cursor
start_cursor true none = record { ledger_sequence = 0; transaction_index = 0 }
start_cursor false none = record { ledger_sequence = 0xFFFFFFFF; transaction_index = 0xFFFFFFFF }

-- The casts to `std::uint32_t`.
abbrev pub to_uint32 : TransactionsCursor → TransactionsCursor
to_uint32 c = record {
  ledger_sequence = c.ledger_sequence % 2 ^ 32;
  transaction_index = c.transaction_index % 2 ^ 32;
}

-- The cursor that a row sets if it is the last one.
unfoldable pub row_cursor : Bool → TxRow → TransactionsCursor
row_cursor true r = record (to_uint32 r.seq_idx) {
  transaction_index = ((to_uint32 r.seq_idx).transaction_index + 1) % 2 ^ 32;
}
row_cursor false r = to_uint32 r.seq_idx

-- The loop over the rows of the result: the cursor after it, from the one before.
unfoldable pub last_cursor :
    Bool → List TxRow → Option TransactionsCursor → Option TransactionsCursor
unfolding row_cursor
last_cursor forward [] cursor = cursor
last_cursor forward (r ∷ []) cursor = some (row_cursor forward r)
last_cursor forward (r ∷ s ∷ rows) cursor = last_cursor forward (s ∷ rows) cursor

abbrev pub no_transactions : TransactionsAndCursor
no_transactions = record { txns = []; cursor = none }

unfoldable pub page_of_txns :
    ℕ → Option TransactionsCursor → List TransactionAndMetadata → TransactionsAndCursor
page_of_txns limit cursor txns = record {
  txns = txns;
  cursor = if length txns == limit then cursor else none;
}

-- Without a range there is nothing to read.
abbrev pub if_range : M TransactionsAndCursor → Option LedgerRange → M TransactionsAndCursor
if_range m none = pure no_transactions
if_range m (some rng) = m

module _ (db : Cassandra) where
  unfoldable pub fetch_rows :
      ℕ → Bool → Option TransactionsCursor → List TxRow → M TransactionsAndCursor
  unfolding last_cursor page_of_txns
  fetch_rows limit forward cursor [] = pure no_transactions
  fetch_rows limit forward cursor (r ∷ rows) = do
    txns ← fetch_transactions db (map TxRow.hash (r ∷ rows))
    pure (page_of_txns limit (last_cursor forward (r ∷ rows) cursor) txns)

  -- What both functions do, with their queries.
  unfoldable pub fetch_page :
      TxQuery → TxQuery → ℕ → ℕ → Bool → Option TransactionsCursor → M TransactionsAndCursor
  unfolding start_cursor fetch_rows
  fetch_page select_forward select key limit forward cursor w =
      if_range
        (ask_outcome (λ t.
            (if forward then select_forward else select) t key (start_cursor forward cursor) limit)
          >>= fetch_rows limit forward cursor)
        w.range w

  module _ (tables : TxTables) where
    open tables use {
      select_account_tx_forward, select_account_tx, select_nft_tx_forward, select_nft_tx,
    }

    unfoldable pub fetch_account_transactions :
        ℕ → ℕ → Bool → Option TransactionsCursor → M TransactionsAndCursor
    unfolding fetch_page
    fetch_account_transactions account limit forward cursor =
        fetch_page select_account_tx_forward select_account_tx account limit forward cursor

    unfoldable pub fetch_nft_transactions :
        ℕ → ℕ → Bool → Option TransactionsCursor → M TransactionsAndCursor
    unfolding fetch_page
    fetch_nft_transactions token_id limit forward cursor =
        fetch_page select_nft_tx_forward select_nft_tx token_id limit forward cursor
