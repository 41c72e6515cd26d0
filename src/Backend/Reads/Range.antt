-- ===== src/Backend/Reads/Range.antt =====
-- The loop that waits for the ledger range (hardFetchLedgerRangeNoThrow of
-- src/backend/BackendInterface.cpp).
use clio_migrator.Prelude.{ℕ, zero, suc, ◌+◌, ◌<◌, ◌≡◌, refl, ap, ◌∙◌, List, arith}
use clio_migrator.Outcome.{returns, throws, database_timeout}
use clio_migrator.Database.{Cassandra, World}
use clio_migrator.Backend.Reads.{
  range_of_rows, hard_fetch_ledger_range, hard_fetch_ledger_range_no_throw,
}

-- The first `k` reads from a time on time out, and the next one gives these rows.
abbrev pub AnswersAfter : Cassandra → ℕ → ℕ → List ℕ → Type 0
AnswersAfter db now zero found = db.select_ledger_range now ≡ returns found
AnswersAfter db now (suc k) found =
    (db.select_ledger_range now ≡ throws database_timeout) × AnswersAfter db (now + 1) k found

-- If `k` reads of the ledger range time out and the next one succeeds, the loop returns the range
-- of its rows after `k + 1` reads, and `k + 1` rounds of fuel are enough. Nothing else of
-- the world changes.
pub range_returns :
    (db : Cassandra) (k fuel : ℕ) (w : World) (found : List ℕ)
    → AnswersAfter db w.now k found
    → k < fuel
    → hard_fetch_ledger_range_no_throw db fuel w
      ≡ (returns (range_of_rows found), record w { now = w.now + (k + 1) })
unfolding hard_fetch_ledger_range_no_throw hard_fetch_ledger_range
range_returns db k zero w found h l = absurd (omega arith)
range_returns db zero (suc fuel) w found h l = rw h refl
range_returns db (suc k) (suc fuel) w found (e, h) l = rw e (
    range_returns db k fuel (record w { now = w.now + 1 }) found h (omega arith)
    ∙ ap (λ n. (returns (range_of_rows found), record w { now = n })) (omega arith))
