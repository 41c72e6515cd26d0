-- ===== src/Backend/Commit/Steps.antt =====
-- A commit of a ledger, by the part that doFinishWritesSync and doFinishWritesAsync of
-- src/backend/CassandraBackend.h share.
use clio_migrator.Prelude.{
  ℕ, ◌+◌, ◌≤◌, ◌<◌, ◌≡◌, ◌≢◌, refl, sym, ap, subst, ◌∙◌, Bool, true, false, Option, none, some,
  arith,
}
use clio_migrator.Types.{LedgerRange}
use clio_migrator.Outcome.{returns}
use clio_migrator.Backend.Commit.{
  RangeUpdate, RangeServer, Writer, then_run, execute_sync_update, write_first, latest_update,
  commit,
}
use clio_migrator.Backend.Commit.Server.{RangeRows, matches, after, IsServer, is_expected}
use clio_migrator.Backend.Commit.Update.{Gives, Gives-weaken, Gives-then, execute_sync_write_lem}
use clio_migrator.Backend.Commit.Applied.{execute_sync_update_lem}
use clio_migrator.Backend.Commit.Rows.{
  no_rows_yet, rows_of, from_first, matches-expected, after-expected, matches-other, after-other,
  Tells-expected, Tells-other,
}

module _ {S : Type 0} (server : RangeServer S) (view : S → RangeRows) (budget : S → ℕ)
    (is : IsServer server view budget) where
  -- From the update of the latest row on.
  commit_latest :
      (fuel : ℕ) (w : Writer) (expected a : ℕ) (o : Option ℕ) (s : S)
      → a ≤ w.ledger_sequence
      → is_expected expected o ≡ true
      → view s ≡ from_first a o
      → budget s + 1 < fuel
      → Gives server view budget
          (execute_sync_update server fuel w.ledger_sequence
            (latest_update server w expected)
            false
            s)
          true
          (rows_of a w.ledger_sequence)
          (budget s)
  commit_latest fuel w expected a o s h e v l =
      let (s', f, v', k) =
        execute_sync_update_lem server view budget is w.ledger_sequence
          (latest_update server w expected) (from_first a o)
          (Tells-expected server view budget is w expected a o h e) fuel s v l in
      (
        s',
        f ∙ ap (λ b. (returns b, s')) (matches-expected server w expected a o e),
        v' ∙ after-expected server w expected a o e,
        k,
      )

  after-first :
      (n : ℕ)
      → after (record { sequence = n; is_latest = false; expected = n }) no_rows_yet
        ≡ from_first n none
  unfolding after matches
  after-first n = refl

  -- From the first row on, for a range that is known or not.
  commit_from :
      (fuel : ℕ) (w : Writer) (expected : ℕ) (s : S) (o : Option LedgerRange) (t t' : RangeRows)
      (b : Bool)
      → w.range ≡ o
      → Gives server view budget (write_first server fuel w o (server.sync s)) tt t (budget s)
      → ((s' : S)
          → view s' ≡ t
          → budget s' ≤ budget s
          → Gives server view budget
              (execute_sync_update server fuel w.ledger_sequence
                (latest_update server w expected)
                false
                s')
              b
              t'
              (budget s))
      → Gives server view budget (commit server fuel w expected s) b t' (budget s)
  unfolding commit
  commit_from fuel w expected s o t t' b r g h =
      subst
        (λ q.
          Gives server view budget
            (then_run server
              (λ x.
                execute_sync_update server fuel w.ledger_sequence (latest_update server w expected)
                  false)
              (write_first server fuel w q (server.sync s)))
            b t' (budget s))
        (sym r)
        (Gives-then server view budget
          (λ x.
            execute_sync_update server fuel w.ledger_sequence (latest_update server w expected)
              false)
          (write_first server fuel w o (server.sync s)) tt b t t' (budget s) g h)

  -- The first ledger of an empty database.
  pub commit_first :
      (fuel : ℕ) (w : Writer) (expected : ℕ) (s : S)
      → w.range ≡ none
      → view s ≡ no_rows_yet
      → budget s + 1 < fuel
      → Gives server view budget
          (commit server fuel w expected s)
          true
          (rows_of w.ledger_sequence w.ledger_sequence)
          (budget s)
  unfolding write_first
  commit_first fuel w expected s r v l =
      let n = w.ledger_sequence in
      let u : RangeUpdate = record { sequence = n; is_latest = false; expected = n } in
      let s₀ = server.sync s in
      let (s₁, e, v₁, k) =
        execute_sync_write_lem server view budget is fuel u s₀
          (omega (arith, l, is.sync_spends s)) in
      commit_from fuel w expected s none (from_first n none) (rows_of n n) true r
        (
          s₁,
          e,
          v₁ ∙ ap (after u) (is.sync_keeps s ∙ v) ∙ after-first n,
          omega (arith, k, is.sync_spends s),
        )
        (λ s' v' k'.
          Gives-weaken server view budget _ true (rows_of n n) (budget s') (budget s) k'
            (commit_latest fuel w expected n none s' (omega arith) refl v' (omega (arith, k', l))))

  pub commit_next :
      (fuel : ℕ) (w : Writer) (rng : LedgerRange) (expected a : ℕ) (s : S)
      → w.range ≡ some rng
      → a ≤ w.ledger_sequence
      → view s ≡ rows_of a expected
      → budget s + 1 < fuel
      → Gives server view budget
          (commit server fuel w expected s)
          true
          (rows_of a w.ledger_sequence)
          (budget s)
  unfolding write_first
  commit_next fuel w rng expected a s r h v l =
      commit_from fuel w expected s (some rng) (rows_of a expected) (rows_of a w.ledger_sequence)
        true r (server.sync s, refl, is.sync_keeps s ∙ v, is.sync_spends s)
        (λ s' v' k'.
          Gives-weaken server view budget _ true (rows_of a w.ledger_sequence) (budget s')
            (budget s) k'
            (commit_latest fuel w expected a (some expected) s' h (ground arith) v'
              (omega (arith, k', l))))

  -- Another writer has gone on: the latest row is neither the expected one nor this ledger.
  pub commit_refused :
      (fuel : ℕ) (w : Writer) (rng : LedgerRange) (expected a b : ℕ) (s : S)
      → w.range ≡ some rng
      → a ≤ b
      → b ≢ expected
      → b ≢ w.ledger_sequence
      → view s ≡ rows_of a b
      → budget s + 1 < fuel
      → Gives server view budget (commit server fuel w expected s) false (rows_of a b) (budget s)
  unfolding write_first
  commit_refused fuel w rng expected a b s r h e k v l =
      let u = latest_update server w expected in
      commit_from fuel w expected s (some rng) (rows_of a b) (rows_of a b) false r
        (server.sync s, refl, is.sync_keeps s ∙ v, is.sync_spends s)
        (λ s' v' k'.
          let (s₁, f, v₁, k₁) =
            execute_sync_update_lem server view budget is w.ledger_sequence u (rows_of a b)
              (Tells-other server view budget is w expected a b h e k) fuel s' v'
              (omega (arith, k', l)) in
          (
            s₁,
            f ∙ ap (λ x. (returns x, s₁)) (matches-other server w expected a b e),
            v₁ ∙ after-other server w expected a b e,
            omega (arith, k₁, k'),
          ))
