-- ===== src/Etl/Pipeline/Slots.antt =====
-- What the queues of runETLPipeline of src/etl/ReportingETL.cpp hold, one for each extractor.
use clio_migrator.Prelude.{
  ℕ, ◌+◌, ◌<◌, ◌≡◌, inl, inr, sym, ap, ◌∙◌, subst, List, [], ◌∷◌, ◌++◌, Bool, true, false, Option,
  none, some, ltb, ◌==◌, if◌then◌else◌, Bool-cases, arith,
}
use clio_migrator.Etl.ThreadSafeQueue.{ThreadSafeQueue}
use clio_migrator.Etl.Pipeline.{ExtractorPhase, fetching, fetched, ended, Extractor, set_at}

pub same_number : (i j : ℕ) → (i == j) ≡ true → i ≡ j
same_number i j h = ground arith

abbrev pub is_ended : ExtractorPhase → Bool
is_ended ended = true
is_ended _ = false

module _ (n : ℕ) (is_validated : ℕ → Bool) where
  -- A queue that holds the ledgers from `a` on, each `n` after the one before, up to the one that
  -- the extractor is at; after an empty optional there is nothing more to come.
  abbrev pub Holds : ℕ → Extractor → List (Option ℕ) → Type 0
  Holds a e [] = e.current_sequence ≡ a
  Holds a e (none ∷ xs) = e.phase ≡ ended
  Holds a e (some x ∷ xs) = (x ≡ a) × (is_validated x ≡ true) × Holds (a + n) e xs

  abbrev pub Ready : ExtractorPhase → ℕ → Type 0
  Ready fetching sequence = is_validated sequence ≡ true
  Ready fetched sequence = is_validated sequence ≡ true
  Ready _ sequence = Unit {0}

  pub Holds-phase :
      (a : ℕ) (e f : Extractor) (xs : List (Option ℕ))
      → is_ended e.phase ≡ false
      → f.current_sequence ≡ e.current_sequence
      → Holds a e xs
      → Holds a f xs
  Holds-phase a e f [] p c h = c ∙ h
  Holds-phase a e f (none ∷ xs) p c h = cc
  Holds-phase a e f (some x ∷ xs) p c (q, v, h) = (q, v, Holds-phase (a + n) e f xs p c h)

  pub Holds-push :
      (a : ℕ) (e f : Extractor) (xs : List (Option ℕ))
      → is_ended e.phase ≡ false
      → is_validated e.current_sequence ≡ true
      → f.current_sequence ≡ e.current_sequence + n
      → Holds a e xs
      → Holds a f (xs ++ some e.current_sequence ∷ [])
  Holds-push a e f [] p v c h = (h, v, c ∙ ap (λ x. x + n) h)
  Holds-push a e f (none ∷ xs) p v c h = cc
  Holds-push a e f (some x ∷ xs) p v c (q, w, h) = (q, w, Holds-push (a + n) e f xs p v c h)

  pub Holds-end :
      (a : ℕ) (e f : Extractor) (xs : List (Option ℕ))
      → f.phase ≡ ended
      → Holds a e xs
      → Holds a f (xs ++ none ∷ [])
  Holds-end a e f [] p h = p
  Holds-end a e f (none ∷ xs) p h = p
  Holds-end a e f (some x ∷ xs) p (q, w, h) = (q, w, Holds-end (a + n) e f xs p h)

  -- The queue and the extractor of one number.
  abbrev pub Slot : ℕ → Extractor → ThreadSafeQueue (Option ℕ) → Type 0
  Slot a e q = Holds a e q.queue × Ready e.phase e.current_sequence

  abbrev pub Slots : (ℕ → ThreadSafeQueue (Option ℕ)) → (ℕ → Extractor) → (ℕ → ℕ) → Type 0
  Slots qs es firsts = (i : ℕ) → i < n → Slot (firsts i) (es i) (qs i)

  pub set-Slot :
      (qs : ℕ → ThreadSafeQueue (Option ℕ)) (es : ℕ → Extractor) (firsts firsts' : ℕ → ℕ) (i : ℕ)
      (q : ThreadSafeQueue (Option ℕ)) (e : Extractor)
      → Slots qs es firsts
      → Slot (firsts' i) e q
      → ((j : ℕ) → (j == i) ≡ false → firsts' j ≡ firsts j)
      → Slots (set_at i q qs) (set_at i e es) firsts'
  set-Slot qs es firsts firsts' i q e h new same j l = elim (Bool-cases (j == i)) [
    | inl p ↦ rw p (subst (λ k. Slot (firsts' k) e q) (sym (same_number j i p)) new)
    | inr p ↦ rw p (subst (λ a. Slot a (es j) (qs j)) (sym (same j p)) (h j l))
  ]

  pub set_extractor :
      (qs : ℕ → ThreadSafeQueue (Option ℕ)) (es : ℕ → Extractor) (firsts : ℕ → ℕ) (i : ℕ)
      (e : Extractor)
      → Slots qs es firsts
      → Slot (firsts i) e (qs i)
      → Slots qs (set_at i e es) firsts
  set_extractor qs es firsts i e h new j l = elim (Bool-cases (j == i)) [
    | inl p ↦ rw p (subst (λ k. Slot (firsts k) e (qs k)) (sym (same_number j i p)) new)
    | inr p ↦ rw p (h j l)
  ]

  pub set_queue :
      (qs : ℕ → ThreadSafeQueue (Option ℕ)) (es : ℕ → Extractor) (firsts firsts' : ℕ → ℕ) (i : ℕ)
      (q : ThreadSafeQueue (Option ℕ))
      → Slots qs es firsts
      → Slot (firsts' i) (es i) q
      → ((j : ℕ) → (j == i) ≡ false → firsts' j ≡ firsts j)
      → Slots (set_at i q qs) es firsts'
  set_queue qs es firsts firsts' i q h new same j l = elim (Bool-cases (j == i)) [
    | inl p ↦ rw p (subst (λ k. Slot (firsts' k) (es k) q) (sym (same_number j i p)) new)
    | inr p ↦ rw p (subst (λ a. Slot a (es j) (qs j)) (sym (same j p)) (h j l))
  ]

  -- The first ledger not popped yet that comes from each extractor, where those below `b` and the
  -- next `k` have been popped.
  abbrev pub first_of : ℕ → ℕ → ℕ → ℕ
  first_of b k i = if ltb i k then b + n + i else b + i

  pub first_of-next : (b k j : ℕ) → (j == k) ≡ false → first_of b (k + 1) j ≡ first_of b k j
  first_of-next b k j h = ground arith

  pub first_of-popped : (b k : ℕ) → first_of b (k + 1) k ≡ first_of b k k + n
  first_of-popped b k = ground arith

  pub first_of-round : (b i : ℕ) → i < n → first_of b n i ≡ first_of (b + n) 0 i
  first_of-round b i l = ground arith
