-- ===== src/Backend/Commit/Sync.antt =====
-- Ledgers that are finished one after the other (finishWrites and doFinishWritesSync of
-- src/backend/BackendInterface.cpp and CassandraBackend.h).
use clio_migrator.Prelude.{
  ℕ, zero, suc, ◌+◌, ◌^◌, ◌≤◌, ◌<◌, ◌≡◌, refl, ap, subst, ◌∙◌, Bool, true, false, Option, none,
  some, arith,
}
use clio_migrator.Types.{LedgerRange}
use clio_migrator.Outcome.{Outcome, returns}
use clio_migrator.Backend.Commit.{
  RangeServer, Writer, minus, update_range, then_run, done, commit, do_finish_writes_sync,
  do_finish_writes, range_after, finish_writes,
}
use clio_migrator.Backend.Commit.Server.{RangeRows, IsServer}
use clio_migrator.Backend.Commit.Update.{Gives, Gives-weaken, Gives-then}
use clio_migrator.Backend.Commit.Rows.{no_rows_yet, rows_of}
use clio_migrator.Backend.Commit.Steps.{commit_first, commit_next}

abbrev pub writer : Option LedgerRange → ℕ → ℕ → Writer
writer o last_sync seq = record { range = o; ledger_sequence = seq; last_sync = last_sync }

abbrev pub extended : Option LedgerRange → ℕ → LedgerRange
extended none seq = record { min_sequence = seq; max_sequence = seq }
extended (some r) seq = record r { max_sequence = seq }

-- The rows agree with the range that the program knows, and `seq` is the next ledger.
abbrev pub Agrees : Option LedgerRange → ℕ → RangeRows → Type 0
Agrees none seq t = t ≡ no_rows_yet
Agrees (some r) seq t =
    (t ≡ rows_of r.min_sequence r.max_sequence)
    × (r.min_sequence ≤ r.max_sequence)
    × (r.max_sequence + 1 ≡ seq)

abbrev pub to_rows : LedgerRange → RangeRows
to_rows r = rows_of r.min_sequence r.max_sequence

module _ {S : Type 0} (server : RangeServer S) where
  -- One ledger after the other, as long as they are committed: `writeLedger` sets the sequence.
  abbrev pub go_on :
      (ℕ → Writer → S → Outcome (Bool × Writer) × S)
      → ℕ
      → Bool × Writer
      → S
      → Outcome (Bool × Writer) × S
  go_on again seq (true, w) = again (seq + 1) w
  go_on again seq (false, w) = done server (false, w)

  unfoldable pub finish_run : ℕ → ℕ → ℕ → ℕ → Writer → S → Outcome (Bool × Writer) × S
  finish_run fuel sync_interval zero seq w s = done server (true, w) s
  finish_run fuel sync_interval (suc count) seq w s =
      then_run server (go_on (finish_run fuel sync_interval count) seq)
        (finish_writes server fuel sync_interval seq (record w { ledger_sequence = seq }) s)

  module _ (view : S → RangeRows) (budget : S → ℕ) (is : IsServer server view budget) where
    finish_commit :
        (fuel seq last_sync : ℕ) (o : Option LedgerRange) (s : S)
        → Agrees o seq (view s)
        → 0 < seq
        → seq < 2 ^ 32
        → budget s + 1 < fuel
        → Gives server view budget
            (commit server fuel (writer o last_sync seq) (minus seq 1) s)
            true
            (to_rows (extended o seq))
            (budget s)
    finish_commit fuel seq last_sync none s g p b l =
        commit_first server view budget is fuel (writer none last_sync seq) (minus seq 1) s refl g l
    finish_commit fuel seq last_sync (some rng) s g p b l =
        commit_next server view budget is fuel (writer (some rng) last_sync seq) rng (minus seq 1)
          rng.min_sequence s refl (omega (arith, g.1, g.2))
          (g.0 ∙ ap (rows_of rng.min_sequence) (omega (arith, g.2, p, b))) l

    finish_one :
        (fuel seq last_sync : ℕ) (o : Option LedgerRange) (s : S)
        → Agrees o seq (view s)
        → 0 < seq
        → seq < 2 ^ 32
        → budget s + 1 < fuel
        → Gives server view budget
            (finish_writes server fuel 1 seq (writer o last_sync seq) s)
            (true, writer (some (extended o seq)) last_sync seq)
            (to_rows (extended o seq))
            (budget s)
    unfolding finish_writes do_finish_writes do_finish_writes_sync update_range
    finish_one fuel seq last_sync o s g p b l =
        let (s', e, v, k) = finish_commit fuel seq last_sync o s g p b l in
        (
          s',
          ap
                (λ x.
                  then_run server (λ r. done server (range_after server seq r))
                    (then_run server (λ c. done server (c, writer o last_sync seq)) x))
                e
              ∙ ap (λ q. (returns (true, writer q last_sync seq), s')) (updated o),
          v,
          k,
        )
      where
        updated : (q : Option LedgerRange) → update_range seq q ≡ some (extended q seq)
        updated none = refl
        updated (some r) = refl

    abbrev at_max : ℕ → ℕ → ℕ → Writer
    at_max last_sync a m = writer (some (record { min_sequence = a; max_sequence = m })) last_sync m

    run_from :
        (count fuel last_sync a m : ℕ) (s : S)
        → view s ≡ rows_of a m
        → a ≤ m
        → m + count < 2 ^ 32
        → budget s + 1 < fuel
        → Gives server view budget
            (finish_run fuel 1 count (m + 1) (at_max last_sync a m) s)
            (true, at_max last_sync a (m + count))
            (rows_of a (m + count))
            (budget s)
    unfolding finish_run
    run_from zero fuel last_sync a m s v h b l =
        let e : m ≡ m + 0 = omega arith in
        (
          s,
          ap (λ n. (returns (true, at_max last_sync a n), s)) e,
          v ∙ ap (rows_of a) e,
          omega arith,
        )
    run_from (suc count) fuel last_sync a m s v h b l =
        let rng : LedgerRange = record { min_sequence = a; max_sequence = m } in
        let e : (m + 1) + count ≡ m + suc count = omega arith in
        Gives-then server view budget (go_on (finish_run fuel 1 count) (m + 1)) _
          (true, at_max last_sync a (m + 1)) (true, at_max last_sync a (m + suc count))
          (rows_of a (m + 1)) (rows_of a (m + suc count)) (budget s)
          (finish_one fuel (m + 1) last_sync (some rng) s (v, h, refl) (omega arith)
            (omega (arith, b)) l)
          (λ s' v' k.
            subst
              (λ n.
                Gives server view budget
                  (finish_run fuel 1 count ((m + 1) + 1) (at_max last_sync a (m + 1)) s')
                  (true, at_max last_sync a n) (rows_of a n) (budget s))
              e
              (Gives-weaken server view budget _ _ _ (budget s') (budget s) k (
                run_from count fuel last_sync a (m + 1) s' v' (omega (arith, h)) (omega (arith, b))
                  (omega (arith, k, l)))))

-- Finishing `count + 1` ledgers in a row on an empty database, with every attempt at an update
-- perhaps lost with its effect or without, commits them all: ledger_range and the range in memory
-- run from the first one to the last, for sequences of 32 bits above 0 and errors that are fewer
-- than the rounds of fuel less one.
pub sync_run :
    {S : Type 0} (server : RangeServer S) (view : S → RangeRows) (budget : S → ℕ)
    → IsServer server view budget
    → (count fuel first last_sync : ℕ) (s : S) → view s ≡ no_rows_yet
    → 0 < first
    → first + count < 2 ^ 32
    → budget s + 1 < fuel
    → Gives server view budget
        (finish_run server fuel 1 (suc count) first (writer none last_sync 0) s)
        (
          true,
          writer
              (some (record { min_sequence = first; max_sequence = first + count }))
              last_sync
              (first + count),
        )
        (rows_of first (first + count))
        (budget s)
unfolding finish_run
sync_run server view budget is count fuel first last_sync s v p b l =
    Gives-then server view budget (go_on server (finish_run server fuel 1 count) first) _
      (true, writer (some (extended none first)) last_sync first) _ (rows_of first first)
      (rows_of first (first + count)) (budget s)
      (finish_one server view budget is fuel first last_sync none s v p (omega (arith, b)) l)
      (λ s' v' k. Gives-weaken server view budget _ _ _ (budget s') (budget s) k (
        run_from server view budget is count fuel last_sync first first s' v' (omega arith) b
          (omega (arith, k, l))))
