-- ===== src/Backend/Paging/Complete.antt =====
-- Reading the transactions of an account or a token to the end
-- (src/backend/CassandraBackend.cpp).
use clio_migrator.Prelude.{ℕ, suc, ◌≡◌, List, Bool, none, arith, if◌then◌else◌, length, map}
use clio_migrator.Types.{TransactionAndMetadata, LedgerRange}
use clio_migrator.Database.{row, Cassandra}
use clio_migrator.Backend.Paging.{
  TxRow, TxQuery, TxTables, fetch_account_transactions, fetch_nft_transactions,
}
use clio_migrator.Backend.Paging.Order.{InOrder}
use clio_migrator.Backend.Serves.{Serves}
use clio_migrator.Backend.Paging.Client.{Known, read_all, HasRows}
use clio_migrator.Backend.Paging.Walk.{pages_lem}

abbrev pub query_of : Bool → TxQuery → TxQuery → TxQuery
query_of forward select_forward select = if forward then select_forward else select

-- Both functions, called again and again with the cursor of the page before, forwards or
-- backwards and with any limit above 0, return every transaction of the account or token exactly
-- once in the order of its rows, and come to an end after at most one call more than there are
-- rows; if a ledger range is known, the reads succeed, and the numbers of the rows are below 2 ^ 32 - 1.
pub pages_complete :
    (rng : LedgerRange) (db : Cassandra) (tables : TxTables) (tx_of : ℕ → TransactionAndMetadata)
    → ((t hash : ℕ) → db.select_transaction_async t hash ≡ row (tx_of hash))
    → (account token_id l : ℕ) (forward : Bool) (rows txs : List TxRow)
    → HasRows
        (query_of forward tables.select_account_tx_forward tables.select_account_tx)
        forward
        account
        rows
    → HasRows
        (query_of forward tables.select_nft_tx_forward tables.select_nft_tx)
        forward
        token_id
        txs
    → InOrder forward rows
    → InOrder forward txs
    → Serves
        (Known rng)
        (read_all
          (suc (length rows))
          (fetch_account_transactions db tables account (suc l) forward)
          none)
        (map (λ r. tx_of r.hash) rows)
      × Serves
          (Known rng)
          (read_all
            (suc (length txs))
            (fetch_nft_transactions db tables token_id (suc l) forward)
            none)
          (map (λ r. tx_of r.hash) txs)
unfolding fetch_account_transactions fetch_nft_transactions
pages_complete rng db tables tx_of answers account token_id l forward rows txs h k o o' = (
  pages_lem rng db tx_of answers tables.select_account_tx_forward tables.select_account_tx account l
      forward rows h (suc (length rows)) o (omega arith),
  pages_lem rng db tx_of answers tables.select_nft_tx_forward tables.select_nft_tx token_id l
      forward txs k (suc (length txs)) o' (omega arith),
)
