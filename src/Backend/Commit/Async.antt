-- ===== src/Backend/Commit/Async.antt =====
-- Ledgers that are committed at intervals (finishWrites and doFinishWritesAsync of
-- src/backend/BackendInterface.cpp and CassandraBackend.h).
use clio_migrator.Prelude.{
  ℕ, ◌+◌, ◌^◌, ◌≤◌, ◌<◌, ◌≡◌, ◌≢◌, inl, inr, refl, sym, ap, subst, ◌∙◌, Bool, true, false, none,
  some, ◌==◌, arith, if◌then◌else◌, Bool-cases,
}
use clio_migrator.Types.{LedgerRange}
use clio_migrator.Outcome.{Outcome}
use clio_migrator.Backend.Commit.{
  RangeServer, Writer, minus, update_range, then_run, done, commit, do_finish_writes_async, is_due,
  async_expected, do_finish_writes, range_after, finish_writes,
}
use clio_migrator.Backend.Commit.Server.{RangeRows, IsServer}
use clio_migrator.Backend.Commit.Update.{Gives}
use clio_migrator.Backend.Commit.Rows.{no_rows_yet, rows_of}
use clio_migrator.Backend.Commit.Steps.{commit_first, commit_next}
use clio_migrator.Backend.Commit.Sync.{writer}

not_one : (n : ℕ) → n ≢ 1 → (n == 1) ≡ false
not_one n h = ground arith

-- The ledgers known run from `a` to `m`, of which those up to `k` are committed.
abbrev pub state : ℕ → ℕ → ℕ → Writer
state a m k = writer (some (record { min_sequence = a; max_sequence = m })) k m

abbrev pub Lags : ℕ → ℕ → ℕ → ℕ → Type 0
Lags interval a m k = (a ≤ k) × (k ≤ m) × (m < k + interval)

module _ {S : Type 0} (server : RangeServer S) (view : S → RangeRows) (budget : S → ℕ)
    (is : IsServer server view budget) (interval : ℕ) (not_sync : interval ≢ 1) where
  abbrev pub LagsTo : Outcome (Bool × Writer) × S → ℕ → ℕ → ℕ → Type 0
  LagsTo p a m n =
      (k : ℕ) × Lags interval a m k × Gives server view budget p (true, state a m k) (rows_of a k) n

  -- What finishWrites does with the result of doFinishWritesAsync.
  finish_by :
      (fuel seq : ℕ) (w w' : Writer) (t : RangeRows) (n : ℕ) (s : S)
      → Gives server view budget (do_finish_writes_async server fuel interval w s) (true, w') t n
      → Gives server view budget
          (finish_writes server fuel interval seq w s)
          (true, record w' { range = update_range seq w'.range })
          t
          n
  unfolding finish_writes do_finish_writes
  finish_by fuel seq w w' t n s (s', e, v, l) = (
    s',
    rw (not_one interval not_sync)
        (ap (λ x. then_run server (λ r. done server (range_after server seq r)) x) e),
    v,
    l,
  )

  due_commit :
      (fuel : ℕ) (w : Writer) (t : RangeRows) (n : ℕ) (s : S)
      → is_due server interval w ≡ true
      → Gives server view budget (commit server fuel w (async_expected server w) s) true t n
      → Gives server view budget
          (do_finish_writes_async server fuel interval w s)
          (true, record w { last_sync = w.ledger_sequence })
          t
          n
  unfolding do_finish_writes_async
  due_commit fuel w t n s d (s', e, v, l) = (
    s',
    rw d (
        ap
          (λ x.
            then_run server
              (λ b. done server (b, if b then record w { last_sync = w.ledger_sequence } else w)) x)
          e),
    v,
    l,
  )

  not_due :
      (fuel : ℕ) (w : Writer) (s : S)
      → is_due server interval w ≡ false
      → Gives server view budget
          (do_finish_writes_async server fuel interval w s)
          (true, w)
          (view s)
          (budget s)
  unfolding do_finish_writes_async
  not_due fuel w s d = (s, rw d refl, refl, omega arith)

  module _ (positive : 0 < interval) (small : interval < 2 ^ 32) where
    -- The next ledger after a state.
    pub next_ledger :
        (fuel a m k : ℕ) (s : S)
        → 0 < a
        → view s ≡ rows_of a k
        → Lags interval a m k
        → m + 1 < 2 ^ 32
        → budget s + 1 < fuel
        → LagsTo
            (finish_writes server fuel interval
              (m + 1)
              (record (state a m k) { ledger_sequence = m + 1 })
              s)
            a
            (m + 1)
            (budget s)
    unfolding is_due async_expected update_range
    next_ledger fuel a m k s p v (h₀, h₁, h₂) b l =
        let rng : LedgerRange = record { min_sequence = a; max_sequence = m } in
        let w = writer (some rng) k (m + 1) in
        elim (Bool-cases (is_due server interval w)) [
          | inl d ↦ (
            m + 1,
            (omega (arith, h₀, h₁), omega arith, omega (arith, positive)),
            finish_by fuel (m + 1) w (writer (some rng) (m + 1) (m + 1)) (rows_of a (m + 1))
                (budget s) s
                (due_commit fuel w (rows_of a (m + 1)) (budget s) s d (
                  subst
                    (λ x.
                      Gives server view budget (commit server fuel w x s) true (rows_of a (m + 1))
                        (budget s))
                    (sym (expected_lem k m rng (omega (arith, p, h₀))))
                    (commit_next server view budget is fuel w rng k a s refl (omega (arith, h₀, h₁))
                      v l))),
          )
          | inr d ↦ (
            k,
            (h₀, omega (arith, h₁), lag (is_due_lem k m rng d)),
            finish_by fuel (m + 1) w w (rows_of a k) (budget s) s
                (let (s', e, v', l') = not_due fuel w s d in (s', e, v' ∙ v, l')),
          )
        ]
      where
        expected_lem :
            (x y : ℕ) (r : LedgerRange)
            → 0 < x
            → async_expected server (writer (some r) x (y + 1)) ≡ x
        expected_lem x y r h = ground arith

        is_due_lem :
            (x y : ℕ) (r : LedgerRange)
            → is_due server interval (writer (some r) x (y + 1)) ≡ false
            → minus (y + 1) interval < x
        is_due_lem x y r h = ground arith

        lag : minus (m + 1) interval < k → m + 1 < k + interval
        lag h = omega (arith, h, h₂, b, small)

    pub first_ledger :
        (fuel first : ℕ) (s : S)
        → view s ≡ no_rows_yet
        → budget s + 1 < fuel
        → Gives server view budget
            (finish_writes server fuel interval first (writer none 0 first) s)
            (true, state first first first)
            (rows_of first first)
            (budget s)
    unfolding is_due update_range
    first_ledger fuel first s v l =
        finish_by fuel first (writer none 0 first) (writer none first first) (rows_of first first)
          (budget s) s
          (due_commit fuel (writer none 0 first) (rows_of first first) (budget s) s refl (
            commit_first server view budget is fuel (writer none 0 first)
              (async_expected server (writer none 0 first)) s refl v l))
