-- ===== src/Etl/Pipeline/Tests.antt =====
-- Runs of the pipeline of src/etl/ReportingETL.cpp.
use clio_migrator.Prelude.{
  ℕ, ◌≡◌, ◌≢◌, refl, inl, inr, [], ◌∷◌, Bool, true, Option, none, some, leb, leb→le, arith,
}
use clio_migrator.Etl.ThreadSafeQueue.{ThreadSafeQueue, push, pop, try_pop}
use clio_migrator.Etl.Pipeline.{
  fetching, fetched, ending, ended, returned, Pipeline, set_at, after_push, start_pipeline,
  set_phase, transform, publish, PipelineRun, begin, after, goes_on, leaves, fetches, pushes, pops,
  builds,
}
use clio_migrator.Etl.Pipeline.Order.{pipeline-InSequence}
use clio_migrator.Etl.Pipeline.Rounds.{InSequence, last_committed}
use clio_migrator.Etl.Pipeline.Joins.{extractor_stays}

-- Two extractors, from ledger 5 on.
abbrev is_validated : ℕ → Bool
is_validated sequence = leb sequence 10000

abbrev pipeline : Pipeline
pipeline = start_pipeline 5 2

abbrev five : ThreadSafeQueue (Option ℕ)
five = record { queue = some 5 ∷ []; max_size = some 500 }

abbrev empty : ThreadSafeQueue (Option ℕ)
empty = record { queue = []; max_size = some 500 }

abbrev in_push : Pipeline
in_push =
    set_phase 5 2 none is_validated 0 fetched (set_phase 5 2 none is_validated 0 fetching pipeline)

abbrev pushed : Pipeline
pushed = record in_push {
  queues = set_at 0 five in_push.queues;
  extractors = set_at 0 (after_push 5 2 none 5) in_push.extractors;
}

abbrev built : Pipeline
built = publish 5 true (
    transform (some 5) (record pushed { queues = set_at 0 empty pushed.queues; next_sequence = 6 }))

run : PipelineRun 5 2 none is_validated pipeline built
unfolding push pop try_pop
run =
    after
      (after
        (after
          (after (after begin (goes_on 0 (omega arith) refl refl refl refl refl))
            (fetches 0 (omega arith) refl))
          (pushes 0 five (omega arith) refl refl))
        (pops (some 5) empty refl refl refl))
      (builds 5 true refl)

pipeline-InSequence_example :
    InSequence 5 ((5, true) ∷ []) × (some 5 ≡ last_committed ((5, true) ∷ []))
pipeline-InSequence_example =
    pipeline-InSequence 5 2 none is_validated built (omega arith) (omega arith)
      (λ sequence h. omega (arith, leb→le sequence 10000 h)) run

-- Of two thousand extractors, whose queues hold one element each, the first one is blocked at a
-- conflict, and its element has been taken.
abbrev blocked : Pipeline
blocked = record (start_pipeline 5 2000) {
  extractors = λ i. record { phase = fetched; current_sequence = 4005 };
  transformer = returned;
  write_conflict = true;
  try_popped = 2000;
}

abbrev full : ThreadSafeQueue (Option ℕ)
full = record { queue = some 4005 ∷ []; max_size = some 0 }

abbrev full_again : Pipeline
full_again = record blocked {
  queues = set_at 0 full blocked.queues;
  extractors = set_at 0 (after_push 5 2000 none 4005) blocked.extractors;
}

abbrev at_the_end : Pipeline
at_the_end = set_phase 5 2000 none is_validated 0 ending full_again

ending_run : PipelineRun 5 2000 none is_validated blocked at_the_end
unfolding push
ending_run =
    after (after begin (pushes 0 full (omega arith) refl refl))
      (leaves 0 (omega arith) refl (inr (refl, inl refl)))

extractor_stays_example : (at_the_end.extractors 0).phase ≢ ended
extractor_stays_example =
    extractor_stays 5 2000 none is_validated 0 0 blocked at_the_end refl refl (inl refl) refl refl
      refl ending_run
