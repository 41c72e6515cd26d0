-- ===== src/Migrator/StepTwo.antt =====
-- The second step: the tokens in the pages of the initial ledger (doMigrationStepTwo of
-- src/main/main.cpp).
pub mod Total
mod Tests
use clio_migrator.Prelude.{ℕ, zero, suc, List, [], ◌∷◌, ◌++◌, Option, none, some}
use clio_migrator.Types.{LedgerObject, LedgerRange}
use clio_migrator.Outcome.{Outcome, returns, throws, out_of_fuel}
use clio_migrator.Outcome
use clio_migrator.Ripple.{Ripple}
use clio_migrator.Nft.Data.{NftsData}
use clio_migrator.Nft.FromObj.{get_nft_data_from_obj}
use clio_migrator.Database.{Cassandra, World, M, ◌>>=◌, pure, lift, go_on}
use clio_migrator.Migrator.Retry.{do_try_fetch_ledger_page}
use clio_migrator.Migrator.Batch.{flush, maybe_do_nft_write}

module _ (r : Ripple) where
  -- The loop over the objects of a page.
  unfoldable pub objects_data : ℕ → List LedgerObject → Outcome (List NftsData)
  objects_data min_sequence [] = returns []
  objects_data min_sequence (object ∷ objects) =
      Outcome.◌>>=◌ (get_nft_data_from_obj r min_sequence object.key object.blob)
        (λ ds. Outcome.◌>>=◌ (objects_data min_sequence objects) (λ es. returns (ds ++ es)))

  module _ (db : Cassandra) where
    -- The loop over the pages from a cursor on, with the records still to be written.
    unfoldable pub step_two_loop : ℕ → ℕ → Option ℕ → List NftsData → M (List NftsData)
    unfolding objects_data
    step_two_loop zero min_sequence cursor to_write = lift (throws out_of_fuel)
    step_two_loop (suc fuel) min_sequence cursor to_write = do
      page ← do_try_fetch_ledger_page db cursor min_sequence 0
      ds ← lift (objects_data min_sequence page.objects)
      rest ← maybe_do_nft_write r (to_write ++ ds)
      go_on (λ state. step_two_loop fuel min_sequence (some state) rest) (pure rest) page.cursor

    unfoldable pub do_migration_step_two : ℕ → LedgerRange → M (Unit {0})
    unfolding step_two_loop
    do_migration_step_two fuel ledger_range = do
      to_write ← step_two_loop fuel ledger_range.min_sequence none []
      flush r to_write
