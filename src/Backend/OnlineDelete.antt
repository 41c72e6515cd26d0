-- ===== src/Backend/OnlineDelete.antt =====
-- Online deletion (doOnlineDelete of src/backend/CassandraBackend.cpp, retryOnTimeout of
-- src/backend/BackendInterface.h): the objects of the oldest ledger to keep are written again, which
-- renews their time to live, and ledger_range is moved. The writes are given as a list.
pub mod Total
mod Tests
use clio_migrator.Prelude.{
  ℕ, zero, suc, ◌+◌, ◌-◌, ◌%◌, ◌^◌, List, [], ◌∷◌, ◌++◌, map, Bool, true, false, Option, none, some,
  leb, if◌then◌else◌,
}
use clio_migrator.Types.{LedgerObject, LedgerPage, LedgerRange}
use clio_migrator.Outcome.{Outcome, throws, out_of_fuel}
use clio_migrator.Database.{Cassandra, World, M, ◌>>=◌, pure, lift, catch_timeout}
use clio_migrator.Backend.Page.{fetch_ledger_page}
use clio_migrator.Backend.Commit.{minus}
use clio_migrator.Backend.LedgerWrites.{Insert, insert_object}

-- Attempts without end, on fuel.
unfoldable pub retry_on_timeout : {A : Type 0} → ℕ → M A → M A
retry_on_timeout zero op = lift (throws out_of_fuel)
retry_on_timeout (suc fuel) op = let again = retry_on_timeout fuel op in catch_timeout op again

-- The result, the objects written and what ledger_range is set to, where `is_latest` is false.
pub record Deletion : Type 0 where
  pub done : Bool
  pub writes : List Insert
  pub first : Option ℕ

abbrev pub nothing_deleted : Deletion
nothing_deleted = record { done = false; writes = []; first = none }

abbrev pub rewrite_object : ℕ → LedgerObject → Insert
rewrite_object min_ledger o = insert_object o.key min_ledger o.blob

module _ (db : Cassandra) where
  abbrev pub fetch_page : ℕ → Option ℕ → M LedgerPage
  fetch_page min_ledger cursor = fetch_ledger_page db cursor min_ledger 256 false

  abbrev pub next_page : (ℕ → M (List Insert)) → Option ℕ → M (List Insert)
  next_page again none = pure []
  next_page again (some cursor) = again cursor

  -- The loop over the pages.
  unfoldable pub rewrite_pages : ℕ → ℕ → Option ℕ → M (List Insert)
  unfolding retry_on_timeout
  rewrite_pages zero min_ledger cursor = lift (throws out_of_fuel)
  rewrite_pages (suc fuel) min_ledger cursor = do
    page ← retry_on_timeout fuel (fetch_page min_ledger cursor)
    rest ← next_page (λ c. rewrite_pages fuel min_ledger (some c)) page.cursor
    pure (map (rewrite_object min_ledger) page.objects ++ rest)

  unfoldable pub delete_before : ℕ → ℕ → M Deletion
  unfolding rewrite_pages
  delete_before fuel min_ledger = do
    writes ← rewrite_pages fuel min_ledger none
    pure (record { done = true; writes = writes; first = some min_ledger })

  -- Nothing is done if so many ledgers are not there.
  unfoldable pub delete_in_range : ℕ → ℕ → Option LedgerRange → M Deletion
  unfolding delete_before
  delete_in_range fuel keep none = pure nothing_deleted
  delete_in_range fuel keep (some rng) =
      if leb (minus rng.max_sequence keep) rng.min_sequence
      then pure nothing_deleted
      else delete_before fuel (minus rng.max_sequence keep)

  unfoldable pub do_online_delete : ℕ → ℕ → M Deletion
  unfolding delete_in_range
  do_online_delete fuel num_ledgers_to_keep w = delete_in_range fuel num_ledgers_to_keep w.range w
