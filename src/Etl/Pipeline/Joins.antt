-- ===== src/Etl/Pipeline/Joins.antt =====
-- The end of runETLPipeline of src/etl/ReportingETL.cpp, which takes one element from each queue
-- before it joins the extractors.
use clio_migrator.Prelude.{
  ℕ, ◌+◌, ◌%◌, ◌^◌, ◌<◌, ◌≡◌, ◌≢◌, ◌⊎◌, inl, inr, refl, sym, ap, ◌∙◌, subst, [], ◌∷◌, Bool, true,
  false, Option, none, some, ◌==◌, if◌then◌else◌, Bool-cases, length, length-append, arith,
}
use clio_migrator.Etl.ThreadSafeQueue.{ThreadSafeQueue, Bounded, push, push_lem}
use clio_migrator.Etl.Pipeline.{
  checking, fetching, fetched, ending, ended, Extractor, returned, Pipeline, set_at, after_push,
  in_range, PipelineStep, goes_on, leaves, fetches, fetches_none, pushes, pushes_end, pops,
  sees_conflict, builds, try_pops, stops, PipelineRun, begin, after,
}
use clio_migrator.Etl.Pipeline.Slots.{same_number}

module _ (start n : ℕ) (finish : Option ℕ) (is_validated : ℕ → Bool) (i max : ℕ) where
  -- It has a response to push where there is room for one, or has none and its queue is full.
  abbrev Waits : Extractor → ThreadSafeQueue (Option ℕ) → Type 0
  Waits e q =
      (q.max_size ≡ some max)
      × (((e.phase ≡ fetched) × (length q.queue ≡ max))
          ⊎ (((e.phase ≡ checking) ⊎ (e.phase ≡ ending)) × (length q.queue ≡ max + 1)))

  abbrev IsStopped : Pipeline → Type 0
  IsStopped s = (s.write_conflict ≡ true) ⊎ (s.stopping ≡ true)

  abbrev IsStuck : Pipeline → Type 0
  IsStuck s =
      (s.transformer ≡ returned)
      × (s.try_popped ≡ n)
      × IsStopped s
      × Waits (s.extractors i) (s.queues i)

  at_extractor :
      (s : Pipeline) (j : ℕ) (e : Extractor)
      → IsStuck s
      → (Waits (s.extractors j) (s.queues j) → Waits e (s.queues j))
      → IsStuck (record s { extractors = set_at j e s.extractors })
  at_extractor s j e (t, m, c, w) f = elim (Bool-cases (i == j)) [
    | inl p ↦
        let same = same_number i j p in
        rw p (
          t,
          m,
          c,
          subst (λ k. Waits e (s.queues k)) (sym same)
              (f (subst (λ k. Waits (s.extractors k) (s.queues k)) same w)),
        )
    | inr p ↦ rw p (t, m, c, w)
  ]

  at_both :
      (s : Pipeline) (j : ℕ) (e : Extractor) (q : ThreadSafeQueue (Option ℕ))
      → IsStuck s
      → (Waits (s.extractors j) (s.queues j) → Waits e q)
      → IsStuck (record s { queues = set_at j q s.queues; extractors = set_at j e s.extractors })
  at_both s j e q (t, m, c, w) f = elim (Bool-cases (i == j)) [
    | inl p ↦
        let same = same_number i j p in
        rw p (t, m, c, f (subst (λ k. Waits (s.extractors k) (s.queues k)) same w))
    | inr p ↦ rw p (t, m, c, w)
  ]

  leaves-Waits :
      (e : Extractor) (q : ThreadSafeQueue (Option ℕ))
      → e.phase ≡ checking
      → Waits e q
      → Waits (record e { phase = ending }) q
  leaves-Waits e q p (m, inl (f, l)) = cc
  leaves-Waits e q p (m, inr (f, l)) = (m, inr (inr refl, l))

  fetching-Waits :
      (e : Extractor) (q : ThreadSafeQueue (Option ℕ)) → e.phase ≡ fetching → Waits e q → ⊥
  fetching-Waits e q p (m, inl (f, l)) = cc
  fetching-Waits e q p (m, inr (inl f, l)) = cc
  fetching-Waits e q p (m, inr (inr f, l)) = cc

  pushed_phase :
      (b : Bool)
      → ((if b then checking else ending) ≡ checking) ⊎ ((if b then checking else ending) ≡ ending)
  pushed_phase true = inl refl
  pushed_phase false = inr refl

  pushes-Waits :
      (e : Extractor) (q r : ThreadSafeQueue (Option ℕ)) (x : Option ℕ)
      → e.phase ≡ fetched
      → push x q ≡ some r
      → Waits e q
      → Waits (after_push start n finish e.current_sequence) r
  pushes-Waits e q r x p h (m, inl (f, l)) =
      let (queued, same, b) = push_lem x q r h in
      (
        same ∙ m,
        inr (
          pushed_phase (in_range finish ((e.current_sequence + n) % 2 ^ 32)),
          ap length queued ∙ length-append q.queue (x ∷ []) ∙ ap (λ k. k + 1) l,
        ),
      )
  pushes-Waits e q r x p h (m, inr (inl f, l)) = cc
  pushes-Waits e q r x p h (m, inr (inr f, l)) = cc

  ends-Waits :
      (e : Extractor) (q r : ThreadSafeQueue (Option ℕ)) (x : Option ℕ)
      → e.phase ≡ ending
      → push x q ≡ some r
      → Waits e q
      → ⊥
  ends-Waits e q r x p h (m, inl (f, l)) = cc
  ends-Waits e q r x p h (m, inr (f, l)) =
      let (queued, same, b) = push_lem x q r h in
      let at_most : length r.queue < max + 2 = omega (arith, subst (λ k. Bounded k r.queue) m b) in
      omega (arith, at_most, ap length queued ∙ length-append q.queue (x ∷ []), l)

  not_both :
      {A : Type 0} (s : Pipeline) → IsStopped s → s.write_conflict ≡ false → s.stopping ≡ false → A
  not_both s (inl p) c d = cc
  not_both s (inr p) c d = cc

  step-IsStuck :
      {s t : Pipeline} → PipelineStep start n finish is_validated s t → IsStuck s → IsStuck t
  step-IsStuck {s} (goes_on j l p a v b c) h = not_both s h.2 b c
  step-IsStuck {s} (leaves j l p a) h =
      at_extractor s j (record (s.extractors j) { phase = ending }) h
        (leaves-Waits (s.extractors j) (s.queues j) p)
  step-IsStuck {s} (fetches j l p) h =
      at_extractor s j (record (s.extractors j) { phase = fetched }) h
        (λ w. absurd (fetching-Waits (s.extractors j) (s.queues j) p w))
  step-IsStuck {s} (fetches_none j l p) h =
      at_extractor s j (record (s.extractors j) { phase = ending }) h
        (λ w. absurd (fetching-Waits (s.extractors j) (s.queues j) p w))
  step-IsStuck {s} (pushes j q l p e) h =
      at_both s j (after_push start n finish (s.extractors j).current_sequence) q h
        (pushes-Waits (s.extractors j) (s.queues j) q (some (s.extractors j).current_sequence) p e)
  step-IsStuck {s} (pushes_end j q l p e) h =
      at_both s j (record (s.extractors j) { phase = ended }) q h
        (λ w. absurd (ends-Waits (s.extractors j) (s.queues j) q none p e w))
  step-IsStuck {s} (pops x q p c e) (t, m, c', w) = cc
  step-IsStuck {s} (sees_conflict p c) (t, m, c', w) = cc
  step-IsStuck {s} (builds sequence success p) (t, m, c', w) = cc
  step-IsStuck {s} (try_pops p l) (t, m, c', w) = absurd (omega (arith, m, l))
  step-IsStuck {s} stops (t, m, c', w) = (t, m, inr refl, w)

  run-IsStuck :
      {s t : Pipeline} → PipelineRun start n finish is_validated s t → IsStuck s → IsStuck t
  run-IsStuck begin h = h
  run-IsStuck (after r x) h = step-IsStuck x (run-IsStuck r h)

  not_ended : (e : Extractor) (q : ThreadSafeQueue (Option ℕ)) → Waits e q → e.phase ≢ ended
  not_ended e q (m, inl (f, l)) = cc
  not_ended e q (m, inr (inl f, l)) = cc
  not_ended e q (m, inr (inr f, l)) = cc

-- Let the transformer have ended, at a conflict or while the pipeline is stopping, and one element
-- have been taken from each queue, and let an extractor have been in the push of a response whose
-- queue was full until then. Its push then fills the queue again, and it never gets through the
-- push of the empty optional: it does not end, however the threads go on.
pub extractor_stays :
    (start n : ℕ) (finish : Option ℕ) (is_validated : ℕ → Bool) (i max : ℕ) (s t : Pipeline)
    → s.transformer ≡ returned
    → s.try_popped ≡ n
    → (s.write_conflict ≡ true) ⊎ (s.stopping ≡ true)
    → (s.extractors i).phase ≡ fetched
    → (s.queues i).max_size ≡ some max
    → length (s.queues i).queue ≡ max
    → PipelineRun start n finish is_validated s t
    → (t.extractors i).phase ≢ ended
extractor_stays start n finish is_validated i max s t p m c f size l r =
    not_ended start n finish is_validated i max (t.extractors i) (t.queues i)
      (run-IsStuck start n finish is_validated i max r (p, m, c, (size, inl (f, l)))).3
