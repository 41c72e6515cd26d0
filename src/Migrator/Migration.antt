-- ===== src/Migrator/Migration.antt =====
-- The migration (doMigrationStepThree and doMigration of src/main/main.cpp).
pub mod Total
use clio_migrator.Prelude.{ℕ, List, [], ◌∷◌, Option, none, some}
use clio_migrator.Types.{LedgerRange}
use clio_migrator.Outcome.{Outcome, returns}
use clio_migrator.Ripple.{Ripple}
use clio_migrator.Database.{
  Cassandra, synced, dropped_old_table, World, M, ◌>>=◌, ◌>>◌, pure, ask, emit,
}
use clio_migrator.Backend.Reads.{hard_fetch_ledger_range_no_throw}
use clio_migrator.Backend.Writes.{sync}
use clio_migrator.Migrator.StepOne.{do_migration_step_one}
use clio_migrator.Migrator.StepTwo.{do_migration_step_two}

-- A failure to drop the table is only a warning.
unfoldable pub do_migration_step_three : Cassandra → M (Unit {0})
do_migration_step_three db = do rc ← ask db.drop_table; emit (dropped_old_table rc ∷ []); sync

module _ (r : Ripple) (db : Cassandra) where
  unfoldable pub migrate_range : ℕ → LedgerRange → M (Unit {0})
  unfolding do_migration_step_one do_migration_step_two do_migration_step_three
  migrate_range fuel range = do
    do_migration_step_one r db fuel range
    do_migration_step_two r db fuel range
    do_migration_step_three db

  unfoldable pub migrate_if : ℕ → Option LedgerRange → M (Unit {0})
  unfolding migrate_range
  migrate_if fuel none = pure tt
  migrate_if fuel (some range) = migrate_range fuel range

  unfoldable pub do_migration : ℕ → M (Unit {0})
  unfolding migrate_if
  do_migration fuel = do range ← hard_fetch_ledger_range_no_throw db fuel; migrate_if fuel range
