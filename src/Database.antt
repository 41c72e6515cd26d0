-- ===== src/Database.antt =====
-- The Cassandra driver and server, which are not part of this repository, and the state in which
-- the program runs. Every request is answered at a time of its own, so that answers may change
-- from one request to the next, fail, and recover; the requests that write are kept in a log.
use clio_migrator.Prelude.{ℕ, ◌+◌, List, [], ◌∷◌, ◌++◌, Bool, Option, none, some}
use clio_migrator.Types.{Blob, TransactionAndMetadata, LedgerRange}
use clio_migrator.Outcome.{Outcome, returns, throws, database_timeout}
use clio_migrator.Cache.{SimpleCache}

-- The answer to one of many reads that are under way at once: an error code, no row, or a row.
pub data Answer (A : Type 0) : Type 0 where
  failed : Answer A
  no_row : Answer A
  row : A → Answer A

-- A page of nf_token_transactions: of each row the hash, where its bytes can be read, and the
-- paging state if there are more pages.
pub record TxPage : Type 0 where
  pub hashes : List (Option ℕ)
  pub next : Option ℕ

pub record NftRow : Type 0 where
  pub sequence : ℕ
  pub owner : ℕ
  pub is_burned : Bool

-- The prepared statements of src/backend/CassandraBackend.cpp, each at a time. A read by
-- `executeAsyncRead` gives the first row, if any, or throws.
pub record Cassandra : Type 0 where
  pub select_ledger_range : ℕ → Outcome (List ℕ)
  pub select_successor : ℕ → ℕ → ℕ → Outcome (Option ℕ)
  pub select_object : ℕ → ℕ → ℕ → Outcome (Option Blob)
  pub select_object_async : ℕ → ℕ → ℕ → Answer Blob
  pub select_transaction_async : ℕ → ℕ → Answer TransactionAndMetadata
  pub select_nft : ℕ → ℕ → ℕ → Outcome (Option NftRow)
  pub select_nft_uri : ℕ → ℕ → ℕ → Outcome (Option Blob)
  -- `cass_session_execute` of the query for hashes, from a paging state; `none` for a null result
  pub execute_tx_page : ℕ → Option ℕ → Option TxPage
  -- whether `DROP TABLE` succeeded
  pub drop_table : ℕ → Bool

-- What the program asks of the outside that leaves a mark.
pub data Event : Type 0 where
  insert_nft : ℕ → ℕ → ℕ → Bool → Event
  insert_issuer_nft : ℕ → ℕ → ℕ → Event
  insert_nft_uri : ℕ → ℕ → Blob → Event
  -- `backend.sync()`: all writes so far are done
  synced : Event
  -- a wait of WAIT_TIME on the timer
  waited : Event
  dropped_old_table : Bool → Event

pub record World : Type 0 where
  pub now : ℕ
  pub log : List Event
  pub cache : SimpleCache
  -- `range` of the BackendInterface
  pub range : Option LedgerRange

abbrev pub M : Type 0 → Type 0
M A = World → Outcome A × World

abbrev pub and_then : {A B : Type 0} → Outcome A × World → (A → M B) → Outcome B × World
and_then (returns a, w) f = f a w
and_then (throws e, w) f = (throws e, w)

infixl 5 ◌>>=◌ ◌>>◌
abbrev pub ◌>>=◌ : {A B : Type 0} → M A → (A → M B) → M B
◌>>=◌ m f w = and_then (m w) f

abbrev pub ◌>>◌ : {B : Type 0} → M (Unit {0}) → M B → M B
m >> k = m >>= λ _. k

abbrev pub pure : {A : Type 0} → A → M A
pure a w = (returns a, w)

abbrev pub lift : {A : Type 0} → Outcome A → M A
lift o w = (o, w)

-- A request that only reads.
abbrev pub ask : {A : Type 0} → (ℕ → A) → M A
ask f w = (returns (f w.now), record w { now = w.now + 1 })

abbrev pub ask_outcome : {A : Type 0} → (ℕ → Outcome A) → M A
ask_outcome f w = (f w.now, record w { now = w.now + 1 })

abbrev pub emit : List Event → M (Unit {0})
emit es w = (returns tt, record w { log = w.log ++ es })

-- A method of the cache that counts.
abbrev pub with_cache : {A : Type 0} → (SimpleCache → A × SimpleCache) → M A
with_cache f w = (returns (f w.cache).0, record w { cache = (f w.cache).1 })

-- `catch (DatabaseTimeout const&)`
abbrev pub on_timeout : {A : Type 0} → M A → Outcome A × World → Outcome A × World
on_timeout handler (throws database_timeout, w) = handler w
on_timeout handler (o, w) = (o, w)

abbrev pub catch_timeout : {A : Type 0} → M A → M A → M A
catch_timeout m handler w = on_timeout handler (m w)

abbrev pub traverse_m : {A B : Type 0} → (A → M B) → List A → M (List B)
traverse_m f [] = pure []
traverse_m f (x ∷ xs) = do y ← f x; ys ← traverse_m f xs; pure (y ∷ ys)

-- A loop over pages: the next round, from the state or cursor of the next page, or the end.
abbrev pub go_on : {A : Type 0} → (ℕ → M A) → M A → Option ℕ → M A
go_on again stop none = stop
go_on again stop (some state) = again state
