-- ===== src/Migrator/StepTwo/Tests.antt =====
-- The second step over a ledger of two objects, both pages of tokens.
use clio_migrator.Prelude.{◌≡◌, ◌++◌, arith}
use clio_migrator.Outcome.{returns}
use clio_migrator.Nft.Sample.{sample}
use clio_migrator.Backend.Writes.{rows}
use clio_migrator.Migrator.Sample.{start, range}
use clio_migrator.Migrator.Log.{inserts}
use clio_migrator.Migrator.StepTwo.{do_migration_step_two}
use clio_migrator.Migrator.StepTwo.Total.{step_two_total}
use clio_migrator.Migrator.LedgerSample.{
  keys, a_page, ledger_server, holds, start-HasEmptyCache, records, recorded,
}

step_two_total_example :
    ((do_migration_step_two sample ledger_server 3 range start).0 ≡ returns tt)
    × (inserts (do_migration_step_two sample ledger_server 3 range start).1.log
        ≡ inserts start.log ++ rows sample records)
step_two_total_example =
    step_two_total sample ledger_server 3 range keys a_page records start (holds 5) recorded
      start-HasEmptyCache (omega arith)
