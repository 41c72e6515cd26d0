-- ===== src/Etl/Pipeline.antt =====
-- runETLPipeline of src/etl/ReportingETL.cpp: the threads that extract ledgers, the one that builds
-- them, and the one that waits for these at the end, as steps of a relation. A response of rippled
-- goes by the sequence that it was asked for, which is that of its header; a wait is a guard of a step. Online deletion and the
-- posting of a ledger to be published are left out, and so is the check of the range at the start.
pub mod Slots
pub mod Rounds
pub mod Order
pub mod Joins
mod Tests
use clio_migrator.Prelude.{
  ℕ, ◌+◌, ◌-◌, ◌/◌, ◌%◌, ◌^◌, ◌<◌, ◌≡◌, ◌⊎◌, List, [], ◌∷◌, Bool, true, false, not, Option, none,
  some, ltb, leb, ◌==◌, if◌then◌else◌,
}
use clio_migrator.Etl.ThreadSafeQueue.{ThreadSafeQueue, push, pop, try_pop}

-- An extractor is at its loop's condition, in fetchLedgerDataAndDiff, in the push of the response,
-- in the push of the empty optional, or through.
pub data ExtractorPhase : Type 0 where
  checking fetching fetched ending ended : ExtractorPhase

pub record Extractor : Type 0 where
  pub phase : ExtractorPhase
  pub current_sequence : ℕ

pub data TransformerPhase : Type 0 where
  popping : TransformerPhase
  building : ℕ → TransformerPhase
  returned : TransformerPhase

-- `written` holds what buildNextLedger was called for and whether it committed, the last one first;
-- `try_popped` counts the rounds of the loop after the transformer's end.
pub record Pipeline : Type 0 where
  pub queues : ℕ → ThreadSafeQueue (Option ℕ)
  pub extractors : ℕ → Extractor
  pub transformer : TransformerPhase
  pub next_sequence : ℕ
  pub write_conflict : Bool
  pub stopping : Bool
  pub last_published_sequence : Option ℕ
  pub written : List (ℕ × Bool)
  pub try_popped : ℕ

abbrev pub set_at : {A : Type 0} → ℕ → A → (ℕ → A) → ℕ → A
set_at i a f j = if j == i then a else f j

-- `!finishSequence_ || sequence <= *finishSequence_`
abbrev pub in_range : Option ℕ → ℕ → Bool
in_range none sequence = true
in_range (some finish) sequence = leb sequence finish

-- What the transformer does with what it has popped.
abbrev pub transform : Option ℕ → Pipeline → Pipeline
transform none s = record s { transformer = returned }
transform (some sequence) s =
    if s.stopping
    then record s { transformer = popping }
    else record s { transformer = building sequence }

abbrev pub publish : ℕ → Bool → Pipeline → Pipeline
publish sequence success s = record s {
  transformer = popping;
  written = (sequence, success) ∷ s.written;
  last_published_sequence = if success then some sequence else s.last_published_sequence;
  write_conflict = not success;
}

module _ (start_sequence num_extractors : ℕ) where
  abbrev pub start_pipeline : Pipeline
  start_pipeline = record {
    queues = λ i. record { queue = []; max_size = some (1000 / num_extractors) };
    extractors = λ i. record { phase = checking; current_sequence = (start_sequence + i) % 2 ^ 32 };
    transformer = popping;
    next_sequence = start_sequence;
    write_conflict = false;
    stopping = false;
    last_published_sequence = none;
    written = [];
    try_popped = 0;
  }

  -- The queue of `getNext`.
  abbrev pub get_next : ℕ → ℕ
  get_next sequence = (sequence + (2 ^ 32 - start_sequence)) % 2 ^ 32 % num_extractors

  -- With the `break` at the end of the loop's body.
  abbrev pub after_push : Option ℕ → ℕ → Extractor
  after_push finish sequence =
      let next = (sequence + num_extractors) % 2 ^ 32 in
      record { phase = if in_range finish next then checking else ending; current_sequence = next }

  module _ (finish : Option ℕ) (is_validated : ℕ → Bool) where
    abbrev pub set_phase : ℕ → ExtractorPhase → Pipeline → Pipeline
    set_phase i phase s = record s {
      extractors = set_at i (record (s.extractors i) { phase = phase }) s.extractors;
    }

    pub data PipelineStep (s : Pipeline) : Pipeline → Type 0 where
      goes_on :
          (i : ℕ)
          → i < num_extractors
          → (s.extractors i).phase ≡ checking
          → in_range finish (s.extractors i).current_sequence ≡ true
          → is_validated (s.extractors i).current_sequence ≡ true
          → s.write_conflict ≡ false
          → s.stopping ≡ false
          → PipelineStep s (set_phase i fetching s)
      leaves :
          (i : ℕ)
          → i < num_extractors
          → (s.extractors i).phase ≡ checking
          → (in_range finish (s.extractors i).current_sequence ≡ false)
            ⊎ ((is_validated (s.extractors i).current_sequence ≡ true)
                × ((s.write_conflict ≡ true) ⊎ (s.stopping ≡ true)))
          → PipelineStep s (set_phase i ending s)
      fetches :
          (i : ℕ)
          → i < num_extractors
          → (s.extractors i).phase ≡ fetching
          → PipelineStep s (set_phase i fetched s)
      fetches_none :
          (i : ℕ)
          → i < num_extractors
          → (s.extractors i).phase ≡ fetching
          → PipelineStep s (set_phase i ending s)
      pushes :
          (i : ℕ) (q : ThreadSafeQueue (Option ℕ))
          → i < num_extractors
          → (s.extractors i).phase ≡ fetched
          → push (some (s.extractors i).current_sequence) (s.queues i) ≡ some q
          → PipelineStep s (record s {
            queues = set_at i q s.queues;
            extractors =
                set_at i (after_push finish (s.extractors i).current_sequence) s.extractors;
          })
      pushes_end :
          (i : ℕ) (q : ThreadSafeQueue (Option ℕ))
          → i < num_extractors
          → (s.extractors i).phase ≡ ending
          → push none (s.queues i) ≡ some q
          → PipelineStep s (set_phase i ended (record s { queues = set_at i q s.queues }))
      pops :
          (x : Option ℕ) (q : ThreadSafeQueue (Option ℕ))
          → s.transformer ≡ popping
          → s.write_conflict ≡ false
          → pop (s.queues (get_next s.next_sequence)) ≡ some (x, q)
          → PipelineStep s (
              transform x (record s {
                queues = set_at (get_next s.next_sequence) q s.queues;
                next_sequence = (s.next_sequence + 1) % 2 ^ 32;
              }))
      sees_conflict :
          s.transformer ≡ popping
          → s.write_conflict ≡ true
          → PipelineStep s (record s { transformer = returned })
      builds :
          (sequence : ℕ) (success : Bool)
          → s.transformer ≡ building sequence
          → PipelineStep s (publish sequence success s)
      try_pops :
          s.transformer ≡ returned
          → s.try_popped < num_extractors
          → PipelineStep s (record s {
            queues =
                set_at
                  (get_next s.try_popped)
                  (try_pop (s.queues (get_next s.try_popped))).1
                  s.queues;
            try_popped = s.try_popped + 1;
          })
      stops : PipelineStep s (record s { stopping = true })

    pub data PipelineRun (s : Pipeline) : Pipeline → Type 0 where
      begin : PipelineRun s s
      after : {t u : Pipeline} → PipelineRun s t → PipelineStep t u → PipelineRun s u
