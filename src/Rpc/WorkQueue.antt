-- ===== src/Rpc/WorkQueue.antt =====
-- The queue of jobs of src/rpc/WorkQueue.h and src/rpc/WorkQueue.cpp. Callers of `postCoro` and
-- the threads that run the jobs interleave: the test of the size, the increment, the posting, the
-- two counts when a job begins and the decrement are steps.
-- That jobs are run is Boost's. How long a job has waited is what the clock says, as a number of 64
-- bits; a negative time, when the clock was set back, is its two's complement.
pub mod Bounds
use clio_migrator.Prelude.{
  ℕ, zero, suc, ◌+◌, ◌%◌, ◌^◌, ◌<◌, ◌≤◌, ◌≡◌, Bool, true, false, not, ◌&&◌, leb, ◌==◌,
  if◌then◌else◌, ◌-◌,
}

pub record WorkQueue : Type 0 where
  pub queued : ℕ
  pub duration_us : ℕ
  pub cur_size : ℕ
  pub max_size : ℕ

-- The constructor; the default of `maxSize_` is the largest number of 32 bits.
unfoldable pub new_queue : ℕ → WorkQueue
new_queue max = record {
  queued = 0;
  duration_us = 0;
  cur_size = 0;
  max_size = if max == 0 then 2 ^ 32 - 1 else max;
}

-- The threads that `while (--numWorkers)` starts.
abbrev pub loop_workers : ℕ → ℕ
loop_workers zero = 0
loop_workers (suc n) = suc (loop_workers n)

unfoldable pub workers : ℕ → ℕ
workers num_workers = loop_workers ((num_workers + (2 ^ 32 - 1)) % 2 ^ 32)

-- The test at the start of `postCoro`.
unfoldable pub is_admitted : WorkQueue → Bool → Bool
is_admitted q is_white_listed = not (leb q.max_size q.cur_size && not is_white_listed)

abbrev pub count_job : WorkQueue → WorkQueue
count_job q = record q { cur_size = (q.cur_size + 1) % 2 ^ 64 }

abbrev pub start_job : ℕ → WorkQueue → WorkQueue
start_job wait q = record q {
  queued = (q.queued + 1) % 2 ^ 64;
  duration_us = (q.duration_us + wait) % 2 ^ 64;
}

abbrev pub end_job : WorkQueue → WorkQueue
end_job q = record q { cur_size = (q.cur_size + (2 ^ 64 - 1)) % 2 ^ 64 }

-- How many jobs are how far: past the test, counted, with Boost, running, and done.
pub record Jobs : Type 0 where
  pub tested : ℕ
  pub counted : ℕ
  pub spawned : ℕ
  pub running : ℕ
  pub finished : ℕ

abbrev pub in_progress : Jobs → ℕ
in_progress j = j.counted + j.spawned + j.running

abbrev pub started : Jobs → ℕ
started j = j.running + j.finished

-- One step of a job; a caller that is refused changes nothing.
pub data Move (is_white_listed : Bool) (q : WorkQueue) (j : Jobs) : WorkQueue → Jobs → Type 0 where
  test :
      is_admitted q is_white_listed ≡ true
      → Move is_white_listed q j q (record j { tested = j.tested + 1 })
  count :
      0 < j.tested
      → Move is_white_listed q j
          (count_job q)
          (record j { tested = j.tested - 1; counted = j.counted + 1 })
  spawn :
      0 < j.counted
      → Move is_white_listed q j q (record j { counted = j.counted - 1; spawned = j.spawned + 1 })
  run :
      (wait : ℕ)
      → 0 < j.spawned
      → Move is_white_listed q j
          (start_job wait q)
          (record j { spawned = j.spawned - 1; running = j.running + 1 })
  finish :
      0 < j.running
      → Move is_white_listed q j
          (end_job q)
          (record j { running = j.running - 1; finished = j.finished + 1 })

pub record System : Type 0 where
  pub queue : WorkQueue
  pub ordinary : Jobs
  pub white_listed : Jobs

abbrev pub all_in_progress : System → ℕ
all_in_progress s = in_progress s.ordinary + in_progress s.white_listed

-- A step after which at most `callers` ordinary callers are past the test and not yet counted,
-- and at most `capacity` jobs are in progress.
pub data Step (callers capacity : ℕ) (s : System) : System → Type 0 where
  move_ordinary :
      {q : WorkQueue} {j : Jobs}
      → Move false s.queue s.ordinary q j
      → j.tested ≤ callers
      → in_progress j + in_progress s.white_listed ≤ capacity
      → Step callers capacity s (record s { queue = q; ordinary = j })
  move_white_listed :
      {q : WorkQueue} {j : Jobs}
      → Move true s.queue s.white_listed q j
      → in_progress s.ordinary + in_progress j ≤ capacity
      → Step callers capacity s (record s { queue = q; white_listed = j })

pub data Steps (callers capacity : ℕ) (s : System) : System → Type 0 where
  here : Steps callers capacity s s
  next :
      {r t : System}
      → Steps callers capacity s r
      → Step callers capacity r t
      → Steps callers capacity s t

abbrev pub no_jobs : Jobs
no_jobs = record { tested = 0; counted = 0; spawned = 0; running = 0; finished = 0 }

abbrev pub new_system : ℕ → System
new_system max = record { queue = new_queue max; ordinary = no_jobs; white_listed = no_jobs }
