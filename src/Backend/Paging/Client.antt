-- ===== src/Backend/Paging/Client.antt =====
-- A client that reads transactions page after page, and what the queries give it
-- (src/backend/CassandraBackend.cpp).
use clio_migrator.Prelude.{ℕ, zero, suc, ◌+◌, ◌≡◌, List, ◌++◌, Bool, Option, none, some, keep, take}
use clio_migrator.Types.{
  LedgerRange, TransactionsCursor, TransactionsAndCursor, TransactionAndMetadata,
}
use clio_migrator.Outcome.{returns, throws, out_of_fuel}
use clio_migrator.Database.{World, M, ◌>>=◌, pure, lift}
use clio_migrator.Backend.Paging.{TxRow, TxQuery}
use clio_migrator.Backend.Paging.Order.{passes}

-- Calls with the cursor of the page before, until a page has none.
abbrev pub next_pages :
    (TransactionsCursor → M (List TransactionAndMetadata))
    → TransactionsAndCursor
    → Option TransactionsCursor
    → M (List TransactionAndMetadata)
next_pages again page none = pure page.txns
next_pages again page (some c) = again c >>= λ rest. pure (page.txns ++ rest)

unfoldable pub read_all :
    ℕ
    → (Option TransactionsCursor → M TransactionsAndCursor)
    → Option TransactionsCursor
    → M (List TransactionAndMetadata)
read_all zero fetch cursor = lift (throws out_of_fuel)
read_all (suc fuel) fetch cursor =
    fetch cursor >>= λ page. next_pages (λ c. read_all fuel fetch (some c)) page page.cursor

-- A query gives the first rows, `limit` at most, that pass its bound.
abbrev pub HasRows : TxQuery → Bool → ℕ → List TxRow → Type 0
HasRows query forward key rows =
    (t : ℕ) (c : TransactionsCursor) (limit : ℕ)
    → query t key c limit ≡ returns (take limit (keep (passes forward c) rows))

-- The ledger range is known.
abbrev pub Known : LedgerRange → World → Type 0
Known rng w = w.range ≡ some rng

pub Known-tick :
    (rng : LedgerRange) (w : World) → Known rng w → Known rng (record w { now = w.now + 1 })
Known-tick rng w h = h
