-- ===== src/Backend/Commit.antt =====
-- The end of a ledger (BackendInterface::finishWrites of src/backend/BackendInterface.cpp;
-- doFinishWrites, doFinishWritesSync, doFinishWritesAsync, executeSyncWrite and executeSyncUpdate
-- of src/backend/CassandraBackend.h, updateRange of src/backend/BackendInterface.h). The ledger
-- becomes visible when ledger_range says so, by updates that the server makes only under
-- a condition. The loops of retries run on fuel.
pub mod Server
pub mod Update
pub mod Applied
pub mod Rows
pub mod Steps
pub mod Sync
pub mod Async
pub mod AsyncRun
mod Tests
use clio_migrator.Prelude.{
  ℕ, zero, suc, ◌+◌, ◌-◌, ◌%◌, ◌^◌, List, [], ◌∷◌, Bool, true, false, ◌||◌, not, Option, none, some,
  ◌==◌, leb, if◌then◌else◌,
}
use clio_migrator.Types.{LedgerRange}
use clio_migrator.Outcome.{Outcome, returns, throws, database_timeout, out_of_fuel}
use clio_migrator.Backend.Reads.{range_of_rows}

-- update ledger_range set sequence = ? where is_latest = ? if sequence in (?,null)
pub record RangeUpdate : Type 0 where
  pub sequence : ℕ
  pub is_latest : Bool
  pub expected : ℕ

-- The answer to an update: an error code, no readable row, or whether it was applied.
pub data Reply : Type 0 where
  rc_error no_rows : Reply
  applied : Bool → Reply

-- The server with everything that the program waits for, in states `S`.
pub record RangeServer (S : Type 0) : Type 0 where
  pub execute : RangeUpdate → S → Reply × S
  pub select_ledger_range : S → Outcome (List ℕ) × S
  -- waits until the asynchronous writes are done
  pub sync : S → S

-- `range`, `ledgerSequence_` and `lastSync_`.
pub record Writer : Type 0 where
  pub range : Option LedgerRange
  pub ledger_sequence : ℕ
  pub last_sync : ℕ

-- Subtraction on 32 bits.
abbrev pub minus : ℕ → ℕ → ℕ
minus a b = (a + (2 ^ 32 - b)) % 2 ^ 32

-- `updateRange`
unfoldable pub update_range : ℕ → Option LedgerRange → Option LedgerRange
update_range new_max none = some (record { min_sequence = new_max; max_sequence = new_max })
update_range new_max (some r) = some (record r { max_sequence = new_max })

module _ {S : Type 0} (server : RangeServer S) where
  open server use {execute, select_ledger_range, sync}

  abbrev pub Run : Type 0 → Type 0
  Run A = S → Outcome A × S

  abbrev pub then_run : {A B : Type 0} → (A → Run B) → Outcome A × S → Outcome B × S
  then_run f (returns a, s) = f a s
  then_run f (throws e, s) = (throws e, s)

  abbrev pub done : {A : Type 0} → A → Run A
  done a s = (returns a, s)

  -- hardFetchLedgerRangeNoThrow
  abbrev pub on_timeout_read :
      Run (Option LedgerRange) → Outcome (List ℕ) × S → Outcome (Option LedgerRange) × S
  on_timeout_read again (returns rows, s) = (returns (range_of_rows rows), s)
  on_timeout_read again (throws database_timeout, s) = again s
  on_timeout_read again (throws e, s) = (throws e, s)

  unfoldable pub read_range : ℕ → Run (Option LedgerRange)
  read_range zero s = (throws out_of_fuel, s)
  read_range (suc fuel) s = on_timeout_read (read_range fuel) (select_ledger_range s)

  abbrev pub until_ok : Run (Unit {0}) → Reply × S → Outcome (Unit {0}) × S
  until_ok again (rc_error, s) = again s
  until_ok again (no_rows, s) = done tt s
  until_ok again (applied b, s) = done tt s

  unfoldable pub execute_sync_write : ℕ → RangeUpdate → Run (Unit {0})
  execute_sync_write zero u s = (throws out_of_fuel, s)
  execute_sync_write (suc fuel) u s = until_ok (execute_sync_write fuel u) (execute u s)

  -- `rng && rng->maxSequence == ledgerSequence_`
  abbrev pub is_max : ℕ → Option LedgerRange → Bool
  is_max seq none = false
  is_max seq (some r) = r.max_sequence == seq

  -- What a reply that is no error says, after an attempt that has timed out or not.
  unfoldable pub judge : Run Bool → Bool → Bool → Run Bool
  judge check true timed_out = done true
  judge check false true = check
  judge check false false = done false

  abbrev pub until_applied : Run Bool → Run Bool → Bool → Reply × S → Outcome Bool × S
  until_applied again check timed_out (rc_error, s) = again s
  until_applied again check timed_out (no_rows, s) = done false s
  until_applied again check timed_out (applied b, s) = judge check b timed_out s

  -- The query of the range where the update was not applied after a timeout.
  unfoldable pub recheck : ℕ → ℕ → Run Bool
  recheck fuel seq s = then_run (λ rng. done (is_max seq rng)) (read_range fuel s)

  unfoldable pub execute_sync_update : ℕ → ℕ → RangeUpdate → Bool → Run Bool
  execute_sync_update zero seq u timed_out s = (throws out_of_fuel, s)
  execute_sync_update (suc fuel) seq u timed_out s =
      until_applied (execute_sync_update fuel seq u true) (recheck fuel seq) timed_out (execute u s)

  -- The first row, if no ledger was known.
  unfoldable pub write_first : ℕ → Writer → Option LedgerRange → Run (Unit {0})
  unfolding execute_sync_write
  write_first fuel w none =
      execute_sync_write fuel
        (record { sequence = w.ledger_sequence; is_latest = false; expected = w.ledger_sequence })
  write_first fuel w (some r) = done tt

  abbrev pub latest_update : Writer → ℕ → RangeUpdate
  latest_update w expected = record {
    sequence = w.ledger_sequence;
    is_latest = true;
    expected = expected;
  }

  -- The part that both variants share: wait, write the first row, update the latest one.
  unfoldable pub commit : ℕ → Writer → ℕ → Run Bool
  unfolding write_first execute_sync_update
  commit fuel w expected s =
      then_run (λ u. execute_sync_update fuel w.ledger_sequence (latest_update w expected) false)
        (write_first fuel w w.range (sync s))

  unfoldable pub do_finish_writes_sync : ℕ → Writer → Run (Bool × Writer)
  unfolding commit
  do_finish_writes_sync fuel w s =
      then_run (λ b. done (b, w)) (commit fuel w (minus w.ledger_sequence 1) s)

  abbrev pub is_unset : Option LedgerRange → Bool
  is_unset none = true
  is_unset (some r) = false

  -- `!range || lastSync_ == 0 || ledgerSequence_ - syncInterval_ >= lastSync_`
  unfoldable pub is_due : ℕ → Writer → Bool
  is_due sync_interval w =
      is_unset w.range
      || (w.last_sync == 0)
      || leb w.last_sync (minus w.ledger_sequence sync_interval)

  unfoldable pub async_expected : Writer → ℕ
  async_expected w = if w.last_sync == 0 then minus w.ledger_sequence 1 else w.last_sync

  unfoldable pub do_finish_writes_async : ℕ → ℕ → Writer → Run (Bool × Writer)
  unfolding commit is_due async_expected
  do_finish_writes_async fuel sync_interval w s =
      if is_due sync_interval w
      then then_run (λ b. done (b, if b then record w { last_sync = w.ledger_sequence } else w))
          (commit fuel w (async_expected w) s)
      else done (true, w) s

  unfoldable pub do_finish_writes : ℕ → ℕ → Writer → Run (Bool × Writer)
  unfolding do_finish_writes_sync do_finish_writes_async
  do_finish_writes fuel sync_interval w =
      if sync_interval == 1
      then do_finish_writes_sync fuel w
      else do_finish_writes_async fuel sync_interval w

  abbrev pub range_after : ℕ → Bool × Writer → Bool × Writer
  range_after seq (true, w) = (true, record w { range = update_range seq w.range })
  range_after seq (false, w) = (false, w)

  unfoldable pub finish_writes : ℕ → ℕ → ℕ → Writer → Run (Bool × Writer)
  unfolding do_finish_writes
  finish_writes fuel sync_interval seq w s =
      then_run (λ r. done (range_after seq r)) (do_finish_writes fuel sync_interval w s)
