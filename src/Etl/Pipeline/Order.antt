-- ===== src/Etl/Pipeline/Order.antt =====
-- The order in which runETLPipeline of src/etl/ReportingETL.cpp builds the ledgers.
use clio_migrator.Prelude.{
  ℕ, ◌+◌, ◌%◌, ◌^◌, ◌<◌, ◌≡◌, inl, inr, refl, sym, ap, ◌∙◌, subst, [], ◌∷◌, ◌++◌, Bool, true, false,
  Option, none, some, Bool-cases, arith,
}
use clio_migrator.Etl.ThreadSafeQueue.{ThreadSafeQueue, push, pop, try_pop, push_lem}
use clio_migrator.Etl.Pipeline.{
  fetching, fetched, ending, ended, Extractor, TransformerPhase, popping, building, returned,
  Pipeline, set_at, after_push, start_pipeline, get_next, in_range, PipelineStep, goes_on, leaves,
  fetches, fetches_none, pushes, pushes_end, pops, sees_conflict, builds, try_pops, stops,
  PipelineRun, begin, after, transform, publish,
}
use clio_migrator.Etl.Pipeline.Slots.{Holds, Ready, is_ended, Slot, Holds-push, Holds-end, set-Slot}
use clio_migrator.Etl.Pipeline.Rounds.{
  InSequence, last_committed, Inv, Stage, Aligned, IsBounded, phase_step, fetched-validated,
  Ready-checked, popped_next, with-Slots,
}

module _ (start n : ℕ) (finish : Option ℕ) (is_validated : ℕ → Bool) where
  push_step :
      (s : Pipeline) (i : ℕ) (x : Option ℕ) (r : ThreadSafeQueue (Option ℕ)) (e : Extractor)
      → i < n
      → push x (s.queues i) ≡ some r
      → ((a : ℕ)
          → Slot n is_validated a (s.extractors i) (s.queues i)
          → Holds n is_validated a e ((s.queues i).queue ++ (x ∷ []))
            × Ready n is_validated e.phase e.current_sequence)
      → Inv start n finish is_validated s
      → Inv start n finish is_validated
          (record s { queues = set_at i r s.queues; extractors = set_at i e s.extractors })
  push_step s i x r e l p f (o, k, g) =
      let (queued, m, c) = push_lem x (s.queues i) r p in
      (
        o,
        k,
        with-Slots start n finish is_validated s.transformer s (set_at i r s.queues)
            (set_at i e s.extractors)
            (λ firsts h.
              let (holds, ready) = f (firsts i) (h i l) in
              set-Slot n is_validated s.queues s.extractors firsts firsts i r e h
                (subst (Holds n is_validated (firsts i) e) (sym queued) holds, ready) (λ j q. refl))
            g,
      )

  pushed_response :
      IsBounded start n finish is_validated
      → (s : Pipeline) (i : ℕ) → (s.extractors i).phase ≡ fetched
      → (a : ℕ) → Slot n is_validated a (s.extractors i) (s.queues i)
      → Slot n is_validated a
          (after_push start n finish (s.extractors i).current_sequence)
          (record {
            queue = (s.queues i).queue ++ (some (s.extractors i).current_sequence ∷ []);
            max_size = none;
          })
  pushed_response bounded s i p a (h, r) =
      let e = s.extractors i in
      let v : is_validated e.current_sequence ≡ true =
        subst (λ x. Ready n is_validated x e.current_sequence) p r in
      let small = bounded e.current_sequence v in
      (
        Holds-push n is_validated a e (after_push start n finish e.current_sequence)
            (s.queues i).queue (ap is_ended p) v (omega (arith, small)) h,
        Ready-checked start n finish is_validated
            (in_range finish ((e.current_sequence + n) % 2 ^ 32))
            ((e.current_sequence + n) % 2 ^ 32),
      )

  stopped :
      (t : TransformerPhase) (s : Pipeline)
      → Stage start n finish is_validated t s
      → Stage start n finish is_validated t (record s { stopping = true })
  stopped popping s (h, w) = (h, inl refl)
  stopped (building sequence) s h = h
  stopped returned s h = tt

  publish-Inv :
      (success : Bool) (sequence : ℕ) (s : Pipeline)
      → InSequence start s.written
      → s.last_published_sequence ≡ last_committed s.written
      → Stage start n finish is_validated (building sequence) s
      → Inv start n finish is_validated (publish sequence success s)
  publish-Inv true sequence s o k (h, e, c, x) =
      ((e, c, o), refl, (h, inr (omega (arith, x, e), λ f. (refl, c))))
  publish-Inv false sequence s o k (h, e, c, x) =
      ((e, c, o), k, (h, inr (omega (arith, x, e), λ f. cc)))

  popped-Stage :
      (s : Pipeline) (x : ℕ) (r : ThreadSafeQueue (Option ℕ))
      → IsBounded start n finish is_validated
      → InSequence start s.written
      → s.last_published_sequence ≡ last_committed s.written
      → Stage start n finish is_validated popping s
      → s.write_conflict ≡ false
      → pop (s.queues (get_next start n s.next_sequence)) ≡ some (some x, r)
      → Inv start n finish is_validated (
          transform (some x) (record s {
            queues = set_at (get_next start n s.next_sequence) r s.queues;
            next_sequence = (s.next_sequence + 1) % 2 ^ 32;
          }))
  popped-Stage s x r bounded o k (h, w) c p =
      let (same, wraps, aligned) = popped_next start n finish is_validated bounded s x r h p in
      let now =
        subst
          (λ m.
            Aligned start n finish is_validated m
              (set_at (get_next start n s.next_sequence) r s.queues) s.extractors)
          (sym wraps) aligned in
      elim (Bool-cases s.stopping) [
        | inl b ↦ rw b (o, k, (now, inl refl))
        | inr b ↦ rw b (
          o,
          k,
          elim w [
            | inl b' ↦ cc
            | inr (e, f) ↦ (now, same ∙ e, f c, wraps ∙ ap (λ m. m + 1) (sym same))
          ],
        )
      ]

  step-Inv :
      IsBounded start n finish is_validated
      → {s t : Pipeline} → PipelineStep start n finish is_validated s t
      → Inv start n finish is_validated s
      → Inv start n finish is_validated t
  step-Inv bounded {s} (goes_on i l p a v b c) h =
      phase_step start n finish is_validated s i fetching l (ap is_ended p) (λ f g. v) h
  step-Inv bounded {s} (leaves i l p a) h =
      phase_step start n finish is_validated s i ending l (ap is_ended p) (λ f g. tt) h
  step-Inv bounded {s} (fetches i l p) h =
      phase_step start n finish is_validated s i fetched l (ap is_ended p)
        (λ f g. fetched-validated start n finish is_validated s i p (g i l).1) h
  step-Inv bounded {s} (fetches_none i l p) h =
      phase_step start n finish is_validated s i ending l (ap is_ended p) (λ f g. tt) h
  step-Inv bounded {s} (pushes i q l p e) h =
      push_step s i (some (s.extractors i).current_sequence) q
        (after_push start n finish (s.extractors i).current_sequence) l e
        (pushed_response bounded s i p) h
  step-Inv bounded {s} (pushes_end i q l p e) h =
      let f = record (s.extractors i) { phase = ended } in
      push_step s i none q f l e
        (λ a g. (Holds-end n is_validated a (s.extractors i) f (s.queues i).queue refl g.0, tt)) h
  step-Inv bounded {s} (pops none q p c e) (o, k, g) = (o, k, tt)
  step-Inv bounded {s} (pops (some x) q p c e) (o, k, g) =
      popped-Stage s x q bounded o k (subst (λ t. Stage start n finish is_validated t s) p g) c e
  step-Inv bounded {s} (sees_conflict p c) (o, k, g) = (o, k, tt)
  step-Inv bounded {s} (builds sequence success p) (o, k, g) =
      publish-Inv success sequence s o k (subst (λ t. Stage start n finish is_validated t s) p g)
  step-Inv bounded {s} (try_pops p l) (o, k, g) = (
    o,
    k,
    subst
        (λ t. Stage start n finish is_validated t (record s {
          queues =
              set_at (get_next start n s.try_popped)
                (try_pop (s.queues (get_next start n s.try_popped))).1 s.queues;
          try_popped = s.try_popped + 1;
        }))
        (sym p) tt,
  )
  step-Inv bounded {s} stops (o, k, g) = (o, k, stopped s.transformer s g)

  run-Inv :
      IsBounded start n finish is_validated
      → {s t : Pipeline} → PipelineRun start n finish is_validated s t
      → Inv start n finish is_validated s
      → Inv start n finish is_validated t
  run-Inv bounded begin h = h
  run-Inv bounded (after r x) h = step-Inv bounded x (run-Inv bounded r h)

  start-Inv : 0 < n → start + n < 2 ^ 32 → Inv start n finish is_validated (start_pipeline start n)
  start-Inv p b = (
    tt,
    refl,
    (
      (0, 0, p, omega arith, omega (arith, b), λ i l. (ground (arith, l, b), tt)),
      inr (omega arith, λ c. tt),
    ),
  )

-- Let there be an extractor at least, and let sequences stay far enough below 2 ^ 32. However the
-- threads interleave, the ledgers are built one after the other from the first one on, none left
-- out or built twice, and none after one that has not been committed; and what is returned at the
-- end is the last one that has been committed, or nothing if there is none.
pub pipeline-InSequence :
    (start n : ℕ) (finish : Option ℕ) (is_validated : ℕ → Bool) (s : Pipeline)
    → 0 < n
    → start + n < 2 ^ 32
    → ((sequence : ℕ) → is_validated sequence ≡ true → sequence + n < 2 ^ 32)
    → PipelineRun start n finish is_validated (start_pipeline start n) s
    → InSequence start s.written × (s.last_published_sequence ≡ last_committed s.written)
pipeline-InSequence start n finish is_validated s p b bounded r =
    let (o, k, g) =
      run-Inv start n finish is_validated bounded r (start-Inv start n finish is_validated p b) in
    (o, k)
