-- ===== src/Etl/ThreadSafeQueue.antt =====
-- ThreadSafeQueue of src/etl/ETLHelpers.h. Each method holds the mutex, so that it is one step; a
-- wait on the condition variable is a guard, which the step gives as `none`.
use clio_migrator.Prelude.{
  ℕ, ◌+◌, ◌≤◌, ◌≡◌, refl, sym, ap, ◌∙◌, List, [], ◌∷◌, ◌++◌, append_assoc, append-nil, Bool, true,
  false, Option, none, some, leb, if◌then◌else◌, length, length-append, some-injective, leb→le,
  subst, ap₂, arith,
}

pub record ThreadSafeQueue (T : Type 0) : Type 0 where
  pub queue : List T
  pub max_size : Option ℕ

module _ {T : Type 0} where
  -- `queue_.size() <= *maxSize_`
  abbrev pub has_room : Option ℕ → List T → Bool
  has_room none queue = true
  has_room (some max) queue = leb (length queue) max

  unfoldable pub push : T → ThreadSafeQueue T → Option (ThreadSafeQueue T)
  push x q =
      if has_room q.max_size q.queue then some (record q { queue = q.queue ++ (x ∷ []) }) else none

  abbrev pub front : List T → Option ℕ → Option T × ThreadSafeQueue T
  front [] max = (none, record { queue = []; max_size = max })
  front (x ∷ queue) max = (some x, record { queue = queue; max_size = max })

  unfoldable pub try_pop : ThreadSafeQueue T → Option T × ThreadSafeQueue T
  try_pop q = front q.queue q.max_size

  abbrev pub popped : Option T × ThreadSafeQueue T → Option (T × ThreadSafeQueue T)
  popped (none, q) = none
  popped (some x, q) = some (x, q)

  -- `pop` waits where `tryPop` finds nothing.
  unfoldable pub pop : ThreadSafeQueue T → Option (T × ThreadSafeQueue T)
  unfolding try_pop
  pop q = popped (try_pop q)

  -- What the threads have pushed and popped so far, in the order in which they held the mutex.
  pub data Run (start : ThreadSafeQueue T) : List T → List T → ThreadSafeQueue T → Type 0 where
    begin : Run start [] [] start
    pushes :
        {ins outs ins' : List T} {q r : ThreadSafeQueue T} (x : T)
        → Run start ins outs q
        → push x q ≡ some r
        → ins' ≡ ins ++ (x ∷ [])
        → Run start ins' outs r
    pops :
        {ins outs outs' : List T} {q r : ThreadSafeQueue T} (x : T)
        → Run start ins outs q
        → pop q ≡ some (x, r)
        → outs' ≡ outs ++ (x ∷ [])
        → Run start ins outs' r
    tries :
        {ins outs : List T} {q r : ThreadSafeQueue T}
        → Run start ins outs q
        → try_pop q ≡ (none, r)
        → Run start ins outs r

  abbrev pub Bounded : Option ℕ → List T → Type 0
  Bounded none queue = Unit {0}
  Bounded (some max) queue = length queue ≤ max + 1

  some_branch :
      (b : Bool) (q r : ThreadSafeQueue T)
      → (if b then some q else none) ≡ some r
      → (b ≡ true) × (q ≡ r)
  some_branch true q r h = (refl, some-injective q r h)
  some_branch false q r h = cc

  push-Bounded :
      (x : T) (max : Option ℕ) (queue : List T)
      → has_room max queue ≡ true
      → Bounded max (queue ++ (x ∷ []))
  push-Bounded x none queue h = tt
  push-Bounded x (some max) queue h =
      omega (arith, length-append queue (x ∷ []), leb→le (length queue) max h)

  pub push_lem :
      (x : T) (q r : ThreadSafeQueue T)
      → push x q ≡ some r
      → (r.queue ≡ q.queue ++ (x ∷ [])) × (r.max_size ≡ q.max_size) × Bounded q.max_size r.queue
  unfolding push
  push_lem x q r h =
      let (e, f) =
        some_branch (has_room q.max_size q.queue) (record q { queue = q.queue ++ (x ∷ []) }) r h in
      (
        sym (ap ThreadSafeQueue.queue f),
        sym (ap ThreadSafeQueue.max_size f),
        subst (λ s. Bounded q.max_size (ThreadSafeQueue.queue s)) f
            (push-Bounded x q.max_size q.queue e),
      )

  popped_lem :
      (x : T) (r : ThreadSafeQueue T) (queue : List T) (max : Option ℕ)
      → popped (front queue max) ≡ some (x, r)
      → (queue ≡ x ∷ r.queue) × (r.max_size ≡ max)
  popped_lem x r [] max h = cc
  popped_lem x r (y ∷ queue) max h =
      let e = some-injective (y, record { queue = queue; max_size = max }) (x, r) h in
      (
        ap₂ (λ (z : T) (s : ThreadSafeQueue T). z ∷ s.queue) (ap (λ p. p.0) e) (ap (λ p. p.1) e),
        sym (ap (λ p. ThreadSafeQueue.max_size p.1) e),
      )

  pub pop_lem :
      (x : T) (q r : ThreadSafeQueue T)
      → pop q ≡ some (x, r)
      → (q.queue ≡ x ∷ r.queue) × (r.max_size ≡ q.max_size)
  unfolding pop try_pop
  pop_lem x q r h = popped_lem x r q.queue q.max_size h

  tried_lem :
      (r : ThreadSafeQueue T) (queue : List T) (max : Option ℕ)
      → front queue max ≡ (none, r)
      → (queue ≡ []) × (r.queue ≡ []) × (r.max_size ≡ max)
  tried_lem r [] max h = (
    refl,
    sym (ap (λ p. ThreadSafeQueue.queue p.1) h),
    sym (ap (λ p. ThreadSafeQueue.max_size p.1) h),
  )
  tried_lem r (x ∷ queue) max h = let e = ap (λ p. p.0) h in cc

  abbrev Inv : ThreadSafeQueue T → List T → List T → ThreadSafeQueue T → Type 0
  Inv start ins outs q =
      (start.queue ++ ins ≡ outs ++ q.queue)
      × (q.max_size ≡ start.max_size)
      × Bounded start.max_size q.queue

  Bounded-tail :
      (x : T) (max : Option ℕ) (queue : List T) → Bounded max (x ∷ queue) → Bounded max queue
  Bounded-tail x none queue h = tt
  Bounded-tail x (some max) queue h = omega (arith, h)

  run-Inv :
      {start q : ThreadSafeQueue T} {ins outs : List T}
      → Run start ins outs q
      → Bounded start.max_size start.queue
      → Inv start ins outs q
  unfolding pop try_pop
  run-Inv {start} begin b = (append-nil start.queue, refl, b)
  run-Inv {start} (pushes {ins} {outs} {q} {r} x run h e) b =
      let (k, m, l) = run-Inv run b in
      let (f, g, c) = push_lem x q r h in
      (
        ap (λ i. start.queue ++ i) e
            ∙ sym (append_assoc start.queue ins (x ∷ []))
            ∙ ap (λ i. i ++ (x ∷ [])) k
            ∙ append_assoc outs q.queue (x ∷ [])
            ∙ ap (λ i. outs ++ i) (sym f),
        g ∙ m,
        subst (λ i. Bounded i r.queue) m c,
      )
  run-Inv {start} (pops {ins} {outs} {outs'} {q} {r} x run h e) b =
      let (k, m, l) = run-Inv run b in
      let (f, g) = pop_lem x q r h in
      (
        k
            ∙ ap (λ i. outs ++ i) f
            ∙ sym (append_assoc outs (x ∷ []) r.queue)
            ∙ ap (λ i. i ++ r.queue) (sym e),
        g ∙ m,
        Bounded-tail x start.max_size r.queue (subst (Bounded start.max_size) f l),
      )
  run-Inv {start} (tries {ins} {outs} {q} {r} run h) b =
      let (k, m, l) = run-Inv run b in
      let (f, g, c) = tried_lem r q.queue q.max_size h in
      (k ∙ ap (λ i. outs ++ i) (f ∙ sym g), c ∙ m, subst (Bounded start.max_size) (f ∙ sym g) l)

-- What has been popped, followed by what is queued, is what was queued and pushed, in order, so
-- that nothing is lost, doubled or overtaken, however the threads interleave; and a queue with
-- a maximum size, started within it, holds at most one element more than the maximum.
pub fifo :
    {T : Type 0} (start q : ThreadSafeQueue T) (ins outs : List T)
    → Run start ins outs q
    → Bounded start.max_size start.queue
    → (start.queue ++ ins ≡ outs ++ q.queue) × Bounded start.max_size q.queue
fifo start q ins outs run b = let (k, m, l) = run-Inv run b in (k, l)
