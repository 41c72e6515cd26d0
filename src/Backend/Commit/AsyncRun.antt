-- ===== src/Backend/Commit/AsyncRun.antt =====
-- Ledgers that are committed at intervals, one after the other (finishWrites and doFinishWritesAsync of
-- src/backend/BackendInterface.cpp and CassandraBackend.h).
use clio_migrator.Prelude.{
  ℕ, zero, suc, ◌+◌, ◌^◌, ◌≤◌, ◌<◌, ◌≡◌, ◌≢◌, ap, subst, ◌∙◌, true, none, some, arith,
}
use clio_migrator.Outcome.{returns}
use clio_migrator.Backend.Commit.{RangeServer, then_run}
use clio_migrator.Backend.Commit.Server.{RangeRows, IsServer}
use clio_migrator.Backend.Commit.Update.{Gives}
use clio_migrator.Backend.Commit.Rows.{no_rows_yet, rows_of}
use clio_migrator.Backend.Commit.Sync.{writer, go_on, finish_run}
use clio_migrator.Backend.Commit.Async.{state, Lags, LagsTo, next_ledger, first_ledger}

module _ {S : Type 0} (server : RangeServer S) (view : S → RangeRows) (budget : S → ℕ)
    (is : IsServer server view budget) (interval : ℕ) (not_sync : interval ≢ 1) where
  module _ (positive : 0 < interval) (small : interval < 2 ^ 32) where
    Lags-run :
        (count fuel a m k : ℕ) (s : S)
        → 0 < a
        → view s ≡ rows_of a k
        → Lags interval a m k
        → m + count < 2 ^ 32
        → budget s + 1 < fuel
        → LagsTo server view budget is interval not_sync
            (finish_run server fuel interval count (m + 1) (state a m k) s)
            a
            (m + count)
            (budget s)
    unfolding finish_run
    Lags-run zero fuel a m k s p v h b l = (
      k,
      (h.0, omega (arith, h.1), omega (arith, h.2)),
      (s, ap (λ n. (returns (true, state a n k), s)) (omega arith), v, omega arith),
    )
    Lags-run (suc count) fuel a m k s p v h b l =
        let (k', h', (s', e, v', l')) =
          next_ledger server view budget is interval not_sync positive small fuel a m k s p v h
            (omega (arith, b)) l in
        let (x, hx, (s'', e'', v'', l'')) =
          Lags-run count fuel a (m + 1) k' s' p v' h' (omega (arith, b)) (omega (arith, l, l')) in
        let q : (m + 1) + count ≡ m + suc count = omega arith in
        (
          x,
          subst (λ n. Lags interval a n x) q hx,
          (
            s'',
            ap (then_run server (go_on server (finish_run server fuel interval count) (m + 1))) e
                ∙ e''
                ∙ ap (λ n. (returns (true, state a n x), s'')) q,
            v'',
            omega (arith, l', l''),
          ),
        )

-- With an interval other than 1, finishing `count + 1` ledgers in a row on an empty database
-- succeeds, and the range in memory runs to the last one; ledger_range runs to the last sync, which
-- is less than an interval behind, for sequences and intervals of 32 bits above 0 and errors that
-- are fewer than the rounds of fuel less one.
pub async_run :
    {S : Type 0} (server : RangeServer S) (view : S → RangeRows) (budget : S → ℕ)
    → IsServer server view budget
    → (interval count fuel first : ℕ) (s : S) → interval ≢ 1
    → 0 < interval
    → interval < 2 ^ 32
    → view s ≡ no_rows_yet
    → 0 < first
    → first + count < 2 ^ 32
    → budget s + 1 < fuel
    → (k : ℕ) × ((first ≤ k) × (k ≤ first + count) × (first + count < k + interval))
      × Gives server view budget
          (finish_run server fuel interval (suc count) first (writer none 0 0) s)
          (
            true,
            writer
                (some (record { min_sequence = first; max_sequence = first + count }))
                k
                (first + count),
          )
          (rows_of first k)
          (budget s)
unfolding finish_run
async_run server view budget is interval count fuel first s one pos small v p b l =
    let (s', e, v', l') =
      first_ledger server view budget is interval one pos small fuel first s v l in
    let (k, h, (s'', e'', v'', l'')) =
      Lags-run server view budget is interval one pos small count fuel first first first s' p v'
        (omega arith, omega arith, omega (arith, pos)) b (omega (arith, l, l')) in
    (
      k,
      h,
      (
        s'',
        ap (then_run server (go_on server (finish_run server fuel interval count) first)) e ∙ e'',
        v'',
        omega (arith, l', l''),
      ),
    )
