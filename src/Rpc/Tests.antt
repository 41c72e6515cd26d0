-- ===== src/Rpc/Tests.antt =====
-- The counters of src/rpc/Counters.cpp on a short run, where method 7 has a handler and method 8
-- has none, and the queue of src/rpc/WorkQueue.h with two callers.
use clio_migrator.Prelude.{
  ◌≡◌, ◌<◌, true, false, arith, refl, List, [], ◌∷◌, Bool, ℕ, ◌==◌, some, Option,
}
use clio_migrator.Rpc.WorkQueue.{
  Jobs, System, move_ordinary, Steps, here, next, test, count, no_jobs, new_system, new_queue,
  is_admitted, in_progress, workers,
}
use clio_migrator.Rpc.WorkQueue.Bounds.{work_queue_bounds}
use clio_migrator.Rpc.Counters.{
  Call, errors, forwards, completes, MethodInfo, after_calls, tally, counters_lem,
}

abbrev has_handler : ℕ → Bool
has_handler m = m == 7

abbrev calls : List Call
calls = completes 7 20 ∷ errors 8 ∷ forwards 7 ∷ errors 7 ∷ completes 7 5 ∷ []

abbrev counted : MethodInfo
counted = record { started = 3; finished = 2; errored = 1; forwarded = 1; duration = 25 }

tallied : tally 7 calls ≡ counted
tallied = refl

counters_lem_example : after_calls has_handler calls 7 ≡ some counted
counters_lem_example = counters_lem has_handler 7 calls

unhandled : after_calls has_handler calls 8 ≡ Option.none
unhandled = counters_lem has_handler 8 calls

-- Two callers that pass the test together take a queue of size 1 to size 2.
abbrev jobs : ℕ → ℕ → Jobs
jobs tested counted = record {
  tested = tested;
  counted = counted;
  spawned = 0;
  running = 0;
  finished = 0;
}

abbrev system : ℕ → ℕ → ℕ → System
system size tested counted = record {
  queue = record { queued = 0; duration_us = 0; cur_size = size; max_size = 1 };
  ordinary = jobs tested counted;
  white_listed = no_jobs;
}

new_is : new_system 1 ≡ system 0 0 0
unfolding new_queue
new_is = refl

both_pass : Steps 2 9 (system 0 0 0) (system 2 0 2)
unfolding is_admitted
both_pass =
    next
      (next
        (next (next here (move_ordinary (test refl) (omega arith) (omega arith)))
          (move_ordinary (test refl) (omega arith) (omega arith)))
        (move_ordinary (count (omega arith)) (omega arith) (omega arith)))
      (move_ordinary (count (omega arith)) (omega arith) (omega arith))

one_worker : workers 1 ≡ 0
unfolding workers
one_worker = refl

abbrev crowded : System
crowded = system 2 0 2

work_queue_bounds_example :
    (crowded.queue.cur_size ≡ 2)
    × (crowded.queue.queued ≡ 0)
    × (is_admitted crowded.queue false ≡ false)
    × (is_admitted crowded.queue true ≡ true)
    × (in_progress crowded.ordinary < 3)
unfolding new_queue
work_queue_bounds_example = work_queue_bounds 1 2 9 crowded (omega arith) (omega arith) both_pass
