-- ===== src/Backend/Commit/Update.antt =====
-- Retries of a conditional update come to an end with its effect made once
-- (executeSyncWrite and executeSyncUpdate of src/backend/CassandraBackend.h).
use clio_migrator.Prelude.{
  ℕ, zero, suc, ◌≤◌, ◌<◌, ◌≡◌, ◌⊎◌, inl, inr, refl, sym, ap, subst, ◌∙◌, List, Option, arith,
}
use clio_migrator.Types.{LedgerRange}
use clio_migrator.Outcome.{Outcome, returns, throws}
use clio_migrator.Backend.Reads.{range_of_rows}
use clio_migrator.Backend.Commit.{
  RangeUpdate, Reply, rc_error, no_rows, applied, RangeServer, then_run, on_timeout_read,
  read_range, until_ok, execute_sync_write,
}
use clio_migrator.Backend.Commit.Server.{
  RangeRows, matches, after, Cas, lost, lost_answer, answered, IsRead, Spends, ReadGives, IsServer,
  after-after,
}

-- What an answer says of the rows before and after.
abbrev pub Facts : RangeUpdate → RangeRows → RangeRows → Reply → Type 0
Facts u v v' rc_error = (v' ≡ v) ⊎ (v' ≡ after u v)
Facts u v v' no_rows = ⊥
Facts u v v' (applied b) = (b ≡ matches u v) × (v' ≡ after u v)

pub Cas-Facts : {u : RangeUpdate} {v v' : RangeRows} {r : Reply} → Cas u v r v' → Facts u v v' r
Cas-Facts lost = inl refl
Cas-Facts lost_answer = inr refl
Cas-Facts answered = (refl, refl)

-- Some attempts at `u` have been made on the rows `t`.
abbrev pub Tracks : RangeUpdate → RangeRows → RangeRows → Type 0
Tracks u t v = (v ≡ t) ⊎ (v ≡ after u t)

pub settled :
    (u : RangeUpdate) (t v v' : RangeRows) → Tracks u t v → v' ≡ after u v → v' ≡ after u t
settled u t v v' (inl e) f = f ∙ ap (after u) e
settled u t v v' (inr e) f = f ∙ ap (after u) e ∙ after-after u t

pub Tracks-on :
    (u : RangeUpdate) (t v v' : RangeRows)
    → Tracks u t v
    → (v' ≡ v) ⊎ (v' ≡ after u v)
    → Tracks u t v'
Tracks-on u t v v' (inl e) (inl f) = inl (f ∙ e)
Tracks-on u t v v' (inr e) (inl f) = inr (f ∙ e)
Tracks-on u t v v' k (inr f) = inr (settled u t v v' k f)

module _ {S : Type 0} (server : RangeServer S) (view : S → RangeRows) (budget : S → ℕ) where
  -- A run comes back with `a`, leaving the rows `t` and at most `n` errors to come.
  abbrev pub Gives : {A : Type 0} → Outcome A × S → A → RangeRows → ℕ → Type 0
  Gives p a t n = (s : S) × (p ≡ (returns a, s)) × (view s ≡ t) × (budget s ≤ n)

  pub Gives-then :
      {A B : Type 0} (f : A → S → Outcome B × S) (p : Outcome A × S) (a : A) (b : B)
      (t t' : RangeRows) (n : ℕ)
      → Gives p a t n
      → ((s : S) → view s ≡ t → budget s ≤ n → Gives (f a s) b t' n)
      → Gives (then_run server f p) b t' n
  Gives-then f p a b t t' n (s, e, v, l) h =
      let (s', e', v', l') = h s v l in (s', ap (then_run server f) e ∙ e', v', l')

  pub Gives-weaken :
      {A : Type 0} (p : Outcome A × S) (a : A) (t : RangeRows) (m n : ℕ)
      → m ≤ n
      → Gives p a t m
      → Gives p a t n
  Gives-weaken p a t m n l (s, e, v, k) = (s, e, v, omega (arith, l, k))

  module _ (is : IsServer server view budget) where
    abbrev pub Read : Outcome (Option LedgerRange) × S → RangeRows → ℕ → Type 0
    Read p t n = (l : List ℕ) × IsRead t l × Gives p (range_of_rows l) t n

    Read-step :
        (again : S → Outcome (Option LedgerRange) × S) (t : RangeRows) (n : ℕ)
        (o : Outcome (List ℕ)) (s : S)
        → ReadGives t n (budget s) o
        → view s ≡ t
        → (budget s < n → Read (again s) t (budget s))
        → Read (on_timeout_read server again (o, s)) t n
    Read-step again t n (returns rows) s (r, l) v ih = (rows, r, (s, refl, v, l))
    Read-step again t n (throws e) s (q, l) v ih =
        let (rows, r, g) = ih l in
        (
          rows,
          r,
          subst (λ x. Gives (on_timeout_read server again (throws x, s)) (range_of_rows rows) t n)
              (sym q) (Gives-weaken (again s) _ t (budget s) n (omega (arith, l)) g),
        )

    pub read_range_lem :
        (fuel : ℕ) (s : S) → budget s < fuel → Read (read_range server fuel s) (view s) (budget s)
    unfolding read_range
    read_range_lem zero s l = absurd (omega (arith, l))
    read_range_lem (suc fuel) s l =
        let s' = (server.select_ledger_range s).1 in
        Read-step (read_range server fuel) (view s) (budget s) (server.select_ledger_range s).0 s'
          (is.reads s) (is.read_keeps s)
          (λ k.
            subst (λ t. Read (read_range server fuel s') t (budget s')) (is.read_keeps s)
              (read_range_lem fuel s' (omega (arith, k, l))))

    write_step :
        (again : S → Outcome (Unit {0}) × S) (u : RangeUpdate) (t v : RangeRows) (n : ℕ) (r : Reply)
        (s : S)
        → Tracks u t v
        → Facts u v (view s) r
        → Spends r n (budget s)
        → (Tracks u t (view s) → budget s < n → Gives (again s) tt (after u t) (budget s))
        → Gives (until_ok server again (r, s)) tt (after u t) n
    write_step again u t v n rc_error s k f l ih =
        Gives-weaken (again s) tt (after u t) (budget s) n (omega (arith, l))
          (ih (Tracks-on u t v (view s) k f) l)
    write_step again u t v n no_rows s k f l ih = absurd f
    write_step again u t v n (applied b) s k f l ih = (s, refl, settled u t v (view s) k f.1, l)

    write_from :
        (fuel : ℕ) (u : RangeUpdate) (t : RangeRows) (s : S)
        → Tracks u t (view s)
        → budget s < fuel
        → Gives (execute_sync_write server fuel u s) tt (after u t) (budget s)
    unfolding execute_sync_write
    write_from zero u t s k l = absurd (omega (arith, l))
    write_from (suc fuel) u t s k l =
        let s' = (server.execute u s).1 in
        write_step (execute_sync_write server fuel u) u t (view s) (budget s) (server.execute u s).0
          s' k (Cas-Facts (is.cas u s)) (is.spends u s)
          (λ k' m. write_from fuel u t s' k' (omega (arith, l, m)))

    pub execute_sync_write_lem :
        (fuel : ℕ) (u : RangeUpdate) (s : S)
        → budget s < fuel
        → Gives (execute_sync_write server fuel u s) tt (after u (view s)) (budget s)
    execute_sync_write_lem fuel u s l = write_from fuel u (view s) s (inl refl) l
