-- ===== src/Backend/Commit/Applied.antt =====
-- What executeSyncUpdate of src/backend/CassandraBackend.h answers.
use clio_migrator.Prelude.{
  ℕ, zero, suc, ◌+◌, ◌<◌, ◌≡◌, inl, inr, refl, sym, ap, subst, ◌∙◌, List, Bool, true, false, arith,
  Bool-cases,
}
use clio_migrator.Outcome.{Outcome, returns}
use clio_migrator.Backend.Reads.{range_of_rows}
use clio_migrator.Backend.Commit.{
  RangeUpdate, Reply, rc_error, no_rows, applied, RangeServer, done, read_range, is_max, judge,
  until_applied, recheck, execute_sync_update,
}
use clio_migrator.Backend.Commit.Server.{RangeRows, matches, after, IsRead, Spends, IsServer}
use clio_migrator.Backend.Commit.Update.{
  Facts, Cas-Facts, Tracks, Tracks-on, settled, Gives, Gives-weaken, Gives-then, read_range_lem,
}

-- If a second update is applied, the first one was.
matches-before :
    (u : RangeUpdate) (t v : RangeRows) → Tracks u t v → matches u v ≡ true → matches u t ≡ true
unfolding after
matches-before u t v (inl e) h = ap (matches u) (sym e) ∙ h
matches-before u t v (inr e) h = elim (Bool-cases (matches u t)) [
  | inl k ↦ k
  | inr k ↦ ap (matches u) (sym (e ∙ rw k refl)) ∙ h
]

module _ {S : Type 0} (server : RangeServer S) (view : S → RangeRows) (budget : S → ℕ)
    (is : IsServer server view budget) (seq : ℕ) (u : RangeUpdate) (t : RangeRows) where
  -- After `u` the rows tell whether it was applied.
  abbrev pub Tells : Type 0
  Tells = (l : List ℕ) → IsRead (after u t) l → is_max server seq (range_of_rows l) ≡ matches u t

  abbrev IsDone : Outcome Bool × S → ℕ → Type 0
  IsDone p n = Gives server view budget p (matches u t) (after u t) n

  module _ (tells : Tells) where
    recheck_lem :
        (fuel : ℕ) (s : S)
        → view s ≡ after u t
        → budget s < fuel
        → IsDone (recheck server fuel seq s) (budget s)
    unfolding recheck
    recheck_lem fuel s v l =
        let (rows, r, g) = read_range_lem server view budget is fuel s l in
        let (s', e, v', k) =
          Gives-then server view budget (λ rng. done server (is_max server seq rng))
            (read_range server fuel s) (range_of_rows rows) (is_max server seq (range_of_rows rows))
            (view s) (view s) (budget s) g (λ x p q. (x, refl, p, q)) in
        (s', e ∙ ap (λ b. (returns b, s')) (tells rows (subst (λ x. IsRead x rows) v r)), v' ∙ v, k)

    judge_lem :
        (fuel : ℕ) (v : RangeRows) (b timed_out : Bool) (s : S)
        → Tracks u t v
        → (timed_out ≡ false → v ≡ t)
        → b ≡ matches u v
        → view s ≡ after u v
        → budget s < fuel
        → IsDone (judge server (recheck server fuel seq) b timed_out s) (budget s)
    unfolding judge
    judge_lem fuel v true timed_out s k f b a l = (
      s,
      ap (λ x. (returns x, s)) (sym (matches-before u t v k (sym b))),
      settled u t v (view s) k a,
      omega arith,
    )
    judge_lem fuel v false true s k f b a l = recheck_lem fuel s (settled u t v (view s) k a) l
    judge_lem fuel v false false s k f b a l = (
      s,
      ap (λ x. (returns x, s)) (b ∙ ap (matches u) (f refl)),
      settled u t v (view s) k a,
      omega arith,
    )

    update_step :
        (fuel : ℕ) (again : S → Outcome Bool × S) (v : RangeRows) (timed_out : Bool) (n : ℕ)
        (r : Reply) (s : S)
        → Tracks u t v
        → (timed_out ≡ false → v ≡ t)
        → Facts u v (view s) r
        → Spends r n (budget s)
        → n < fuel
        → (Tracks u t (view s) → budget s < n → IsDone (again s) (budget s))
        → IsDone (until_applied server again (recheck server fuel seq) timed_out (r, s)) n
    update_step fuel again v timed_out n rc_error s k f a l m ih =
        Gives-weaken server view budget (again s) (matches u t) (after u t) (budget s) n
          (omega (arith, l)) (ih (Tracks-on u t v (view s) k a) l)
    update_step fuel again v timed_out n no_rows s k f a l m ih = absurd a
    update_step fuel again v timed_out n (applied b) s k f a l m ih =
        Gives-weaken server view budget (judge server (recheck server fuel seq) b timed_out s)
          (matches u t) (after u t) (budget s) n (omega (arith, l))
          (judge_lem fuel v b timed_out s k f a.0 a.1 (omega (arith, l, m)))

    update_from :
        (fuel : ℕ) (s : S) (timed_out : Bool)
        → Tracks u t (view s)
        → (timed_out ≡ false → view s ≡ t)
        → budget s + 1 < fuel
        → IsDone (execute_sync_update server fuel seq u timed_out s) (budget s)
    unfolding execute_sync_update
    update_from zero s timed_out k f l = absurd (omega (arith, l))
    update_from (suc fuel) s timed_out k f l =
        let s' = (server.execute u s).1 in
        update_step fuel (execute_sync_update server fuel seq u true) (view s) timed_out (budget s)
          (server.execute u s).0 s' k f (Cas-Facts (is.cas u s)) (is.spends u s) (omega (arith, l))
          (λ k' m. update_from fuel s' true k' (λ e. cc) (omega (arith, l, m)))

    pub execute_sync_update_lem :
        (fuel : ℕ) (s : S)
        → view s ≡ t
        → budget s + 1 < fuel
        → IsDone (execute_sync_update server fuel seq u false s) (budget s)
    execute_sync_update_lem fuel s e l = update_from fuel s false (inl e) (λ f. e) l
