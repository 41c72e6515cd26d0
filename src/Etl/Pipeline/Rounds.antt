-- ===== src/Etl/Pipeline/Rounds.antt =====
-- The rounds over the queues in which runETLPipeline of src/etl/ReportingETL.cpp takes the ledgers.
use native.Mathlib.Nat.{mul-add-mod_self_right, mod-eq_of_lt, suc-mul}
use clio_migrator.Prelude.{
  ℕ, ◌+◌, ◌-◌, ◌*◌, ◌%◌, ◌^◌, ◌<◌, ◌≡◌, ◌⊎◌, inl, inr, refl, sym, ap, ◌∙◌, subst, List, [], ◌∷◌,
  Bool, true, false, Option, none, some, ◌==◌, if◌then◌else◌, Bool-cases, All, length, arith, suc,
}
use clio_migrator.Etl.ThreadSafeQueue.{ThreadSafeQueue, pop, pop_lem}
use clio_migrator.Etl.Pipeline.{
  ExtractorPhase, checking, fetching, fetched, ending, Extractor, TransformerPhase, popping,
  building, returned, Pipeline, set_at, get_next, set_phase,
}
use clio_migrator.Etl.Pipeline.Slots.{
  same_number, Holds, Ready, is_ended, Slot, Slots, Holds-phase, set_extractor, set_queue, first_of,
  first_of-next, first_of-popped, first_of-round,
}

abbrev pub IsCommitted : ℕ × Bool → Type 0
IsCommitted (sequence, success) = success ≡ true

-- Each ledger follows the one before it, the first one is at `start`, and all but the last one have
-- committed.
abbrev pub InSequence : ℕ → List (ℕ × Bool) → Type 0
InSequence start [] = Unit {0}
InSequence start ((sequence, success) ∷ earlier) =
    (sequence ≡ start + length earlier) × All IsCommitted earlier × InSequence start earlier

abbrev pub last_committed : List (ℕ × Bool) → Option ℕ
last_committed [] = none
last_committed ((sequence, success) ∷ earlier) =
    if success then some sequence else last_committed earlier

module _ (start n : ℕ) (finish : Option ℕ) (is_validated : ℕ → Bool) where
  -- The first `q` rounds over all queues have been popped, and `k` queues in the next one.
  abbrev pub Aligned : ℕ → (ℕ → ThreadSafeQueue (Option ℕ)) → (ℕ → Extractor) → Type 0
  Aligned next qs es =
      (q : ℕ) × (k : ℕ) × (k < n)
      × (next ≡ start + q * n + k)
      × (next < 2 ^ 32)
      × Slots n is_validated qs es (first_of n is_validated (start + q * n) k)

  -- The next ledger is to be written, unless the pipeline is stopping.
  abbrev pub IsNext : Pipeline → Type 0
  IsNext s =
      (s.stopping ≡ true)
      ⊎ ((s.next_sequence ≡ start + length s.written)
          × (s.write_conflict ≡ false → All IsCommitted s.written))

  abbrev pub Stage : TransformerPhase → Pipeline → Type 0
  Stage popping s = Aligned s.next_sequence s.queues s.extractors × IsNext s
  Stage (building sequence) s =
      Aligned s.next_sequence s.queues s.extractors
      × (sequence ≡ start + length s.written)
      × All IsCommitted s.written
      × (s.next_sequence ≡ sequence + 1)
  Stage returned s = Unit {0}

  abbrev pub Inv : Pipeline → Type 0
  Inv s =
      InSequence start s.written
      × (s.last_published_sequence ≡ last_committed s.written)
      × Stage s.transformer s

  pub get_next_lem :
      (q k : ℕ) → k < n → start + q * n + k < 2 ^ 32 → get_next start n (start + q * n + k) ≡ k
  get_next_lem q k l b =
      let e : (start + q * n + k + (2 ^ 32 - start)) % 2 ^ 32 ≡ q * n + k = omega (arith, b) in
      ap (λ x. x % n) e ∙ mul-add-mod_self_right q n k ∙ mod-eq_of_lt l

  pub with-Slots :
      (t : TransformerPhase) (s : Pipeline) (qs : ℕ → ThreadSafeQueue (Option ℕ))
      (es : ℕ → Extractor)
      → ((firsts : ℕ → ℕ)
          → Slots n is_validated s.queues s.extractors firsts
          → Slots n is_validated qs es firsts)
      → Stage t s
      → Stage t (record s { queues = qs; extractors = es })
  with-Slots popping s qs es f ((q, k, l, e, b, h), w) = ((q, k, l, e, b, f _ h), w)
  with-Slots (building sequence) s qs es f ((q, k, l, e, b, h), v, w, x) =
      ((q, k, l, e, b, f _ h), v, w, x)
  with-Slots returned s qs es f h = tt

  set_phase-Slots :
      (s : Pipeline) (i : ℕ) (phase : ExtractorPhase) (firsts : ℕ → ℕ)
      → i < n
      → is_ended (s.extractors i).phase ≡ false
      → Ready n is_validated phase (s.extractors i).current_sequence
      → Slots n is_validated s.queues s.extractors firsts
      → Slots n is_validated s.queues
          (set_at i (record (s.extractors i) { phase = phase }) s.extractors)
          firsts
  set_phase-Slots s i phase firsts l p r h =
      let e = s.extractors i in
      set_extractor n is_validated s.queues s.extractors firsts i (record e { phase = phase }) h
        (
          Holds-phase n is_validated (firsts i) e (record e { phase = phase }) (s.queues i).queue p
              refl (h i l).0,
          r,
        )

  pub phase_step :
      (s : Pipeline) (i : ℕ) (phase : ExtractorPhase)
      → i < n
      → is_ended (s.extractors i).phase ≡ false
      → ((firsts : ℕ → ℕ)
          → Slots n is_validated s.queues s.extractors firsts
          → Ready n is_validated phase (s.extractors i).current_sequence)
      → Inv s
      → Inv (set_phase start n finish is_validated i phase s)
  phase_step s i phase l p r (o, e, g) = (
    o,
    e,
    with-Slots s.transformer s s.queues
        (set_at i (record (s.extractors i) { phase = phase }) s.extractors)
        (λ firsts h. set_phase-Slots s i phase firsts l p (r firsts h) h) g,
  )

  pub fetched-validated :
      (s : Pipeline) (i : ℕ)
      → (s.extractors i).phase ≡ fetching
      → Ready n is_validated (s.extractors i).phase (s.extractors i).current_sequence
      → Ready n is_validated fetched (s.extractors i).current_sequence
  fetched-validated s i p r =
      subst (λ x. Ready n is_validated x (s.extractors i).current_sequence) p r

  pub Ready-checked : (b : Bool) (c : ℕ) → Ready n is_validated (if b then checking else ending) c
  Ready-checked true c = tt
  Ready-checked false c = tt

  suc_round : (q : ℕ) → start + suc q * n ≡ start + q * n + n
  suc_round q = ap (λ x. start + x) (suc-mul q n) ∙ omega arith

  popped-Aligned :
      (q k : ℕ) (next : ℕ) (qs : ℕ → ThreadSafeQueue (Option ℕ)) (es : ℕ → Extractor)
      → k < n
      → next ≡ start + q * n + k
      → next + 1 < 2 ^ 32
      → Slots n is_validated qs es (first_of n is_validated (start + q * n) (k + 1))
      → Aligned (next + 1) qs es
  popped-Aligned q k next qs es l e b h = elim (Bool-cases (k + 1 == n)) [
    | inl p ↦
        let m : k + 1 ≡ n = same_number (k + 1) n p in
        let r : start + suc q * n ≡ start + q * n + n = suc_round q in
        (
          suc q,
          0,
          omega (arith, l),
          omega (arith, r, m, e),
          b,
          λ i j.
              subst (λ a. Slot n is_validated a (es i) (qs i))
                (ap (λ x. first_of n is_validated (start + q * n) x i) m
                  ∙ first_of-round n is_validated (start + q * n) i j
                  ∙ ap (λ x. first_of n is_validated x 0 i) (sym r))
                (h i j),
        )
    | inr p ↦ (q, k + 1, ground (arith, l, p), omega (arith, e), b, h)
  ]

  abbrev pub IsBounded : Type 0
  IsBounded = (sequence : ℕ) → is_validated sequence ≡ true → sequence + n < 2 ^ 32

  -- After a pop that gave a ledger: it is the next one.
  pub popped_next :
      IsBounded
      → (s : Pipeline) (x : ℕ) (r : ThreadSafeQueue (Option ℕ))
      → Aligned s.next_sequence s.queues s.extractors
      → pop (s.queues (get_next start n s.next_sequence)) ≡ some (some x, r)
      → (x ≡ s.next_sequence)
        × ((s.next_sequence + 1) % 2 ^ 32 ≡ s.next_sequence + 1)
        × Aligned
            (s.next_sequence + 1)
            (set_at (get_next start n s.next_sequence) r s.queues)
            s.extractors
  popped_next bounded s x r (q, k, l, e, b, h) p =
      let base = start + q * n in
      let i : get_next start n s.next_sequence ≡ k =
        ap (get_next start n) e ∙ get_next_lem q k l (subst (λ m. m < 2 ^ 32) e b) in
      let here =
        pop_lem (some x) (s.queues k) r (subst (λ j. pop (s.queues j) ≡ some (some x, r)) i p) in
      let slot = h k l in
      let (same, valid, rest) =
        subst (Holds n is_validated (first_of n is_validated base k k) (s.extractors k)) here.0
          slot.0 in
      let first : first_of n is_validated base k k ≡ base + k = ground arith in
      let x_next : x ≡ s.next_sequence = same ∙ first ∙ sym e in
      let small = bounded x valid in
      let room : s.next_sequence + 1 < 2 ^ 32 = omega (arith, small, x_next, l) in
      (
        x_next,
        omega (arith, room),
        popped-Aligned q k s.next_sequence (set_at (get_next start n s.next_sequence) r s.queues)
            s.extractors l e room
            (subst
              (λ j.
                Slots n is_validated (set_at j r s.queues) s.extractors
                  (first_of n is_validated base (k + 1)))
              (sym i)
              (set_queue n is_validated s.queues s.extractors (first_of n is_validated base k)
                (first_of n is_validated base (k + 1)) k r h
                (
                  subst (λ a. Holds n is_validated a (s.extractors k) r.queue)
                      (sym (first_of-popped n is_validated base k)) rest,
                  slot.1,
                )
                (λ j f. first_of-next n is_validated base k j f))),
      )
