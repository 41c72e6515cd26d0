-- ===== src/Rpc/WorkQueue/Bounds.antt =====
-- What the counters of the queue of jobs promise (src/rpc/WorkQueue.h).
use clio_migrator.Prelude.{
  ℕ, ◌+◌, ◌%◌, ◌^◌, ◌<◌, ◌≤◌, ◌≡◌, Bool, true, false, refl, ◌∙◌, arith, ltb,
}
use clio_migrator.Rpc.WorkQueue.{
  WorkQueue, Jobs, Move, test, count, spawn, run, finish, System, Step, Steps, move_ordinary,
  move_white_listed, here, next, is_admitted, in_progress, started, all_in_progress, new_queue,
  new_system,
}

-- What a step of one job keeps, with the other class in the sums.
record Kept (q : WorkQueue) (j : Jobs) (q' : WorkQueue) (j' : Jobs) (others others_started : ℕ)
    : Type 0 where
  max_same : q'.max_size ≡ q.max_size
  size : q'.cur_size ≡ in_progress j' + others
  starts : q'.queued ≡ (started j' + others_started) % 2 ^ 64

Move-Kept :
    {b : Bool} {q q' : WorkQueue} {j j' : Jobs} (n k capacity : ℕ)
    → capacity < 2 ^ 64
    → in_progress j' + n ≤ capacity
    → q.cur_size ≡ in_progress j + n
    → q.queued ≡ (started j + k) % 2 ^ 64
    → Move b q j q' j'
    → Kept q j q' j' n k
Move-Kept n k capacity small room size starts (test g) = record {
  max_same = refl;
  size = size;
  starts = starts;
}
Move-Kept n k capacity small room size starts (count g) = record {
  max_same = refl;
  size = omega (arith, small, room, size, g);
  starts = starts;
}
Move-Kept n k capacity small room size starts (spawn g) = record {
  max_same = refl;
  size = omega (arith, size, g);
  starts = starts;
}
Move-Kept n k capacity small room size starts (run wait g) = record {
  max_same = refl;
  size = omega (arith, size, g);
  starts = omega (arith, starts, g);
}
Move-Kept n k capacity small room size starts (finish g) = record {
  max_same = refl;
  size = omega (arith, small, room, size, g);
  starts = omega (arith, starts, g);
}

admitted-room : (q : WorkQueue) → is_admitted q false ≡ true → q.cur_size < q.max_size
unfolding is_admitted
admitted-room q e = ground (arith, e)

Move-room :
    {q q' : WorkQueue} {j j' : Jobs} (n limit callers : ℕ)
    → q.max_size ≡ limit
    → q.cur_size ≡ in_progress j + n
    → j.tested + in_progress j < limit + callers
    → j'.tested ≤ callers
    → Move false q j q' j'
    → j'.tested + in_progress j' < limit + callers
Move-room {q} n limit callers m size room few (test g) =
    omega (arith, m, size, few, admitted-room q g)
Move-room n limit callers m size room few (count g) = omega (arith, room, g)
Move-room n limit callers m size room few (spawn g) = omega (arith, room, g)
Move-room n limit callers m size room few (run wait g) = omega (arith, room, g)
Move-room n limit callers m size room few (finish g) = omega (arith, room, g)

module _ (limit callers capacity : ℕ) where
  record Inv (s : System) : Type 0 where
    max_same : s.queue.max_size ≡ limit
    size : s.queue.cur_size ≡ all_in_progress s
    starts : s.queue.queued ≡ (started s.ordinary + started s.white_listed) % 2 ^ 64
    room : s.ordinary.tested + in_progress s.ordinary < limit + callers

  module _ (small : capacity < 2 ^ 64) where
    Step-Inv : {s t : System} → Inv s → Step callers capacity s t → Inv t
    Step-Inv {s} inv (move_ordinary m few fits) =
        let k =
          Move-Kept (in_progress s.white_listed) (started s.white_listed) capacity small fits
            inv.size inv.starts m in
        record {
          max_same = k.max_same ∙ inv.max_same;
          size = k.size;
          starts = k.starts;
          room =
              Move-room (in_progress s.white_listed) limit callers inv.max_same inv.size inv.room
                few m;
        }
    Step-Inv {s} inv (move_white_listed m fits) =
        let k =
          Move-Kept (in_progress s.ordinary) (started s.ordinary) capacity small
            (omega (arith, fits)) (omega (arith, inv.size)) (omega (arith, inv.starts)) m in
        record {
          max_same = k.max_same ∙ inv.max_same;
          size = omega (arith, k.size);
          starts = omega (arith, k.starts);
          room = inv.room;
        }

    Steps-Inv : {s t : System} → Inv s → Steps callers capacity s t → Inv t
    Steps-Inv inv here = inv
    Steps-Inv inv (next st e) = Step-Inv (Steps-Inv inv st) e

Inv-new :
    (max callers capacity : ℕ)
    → 0 < callers
    → Inv (WorkQueue.max_size (new_queue max)) callers capacity (new_system max)
unfolding new_queue
Inv-new max callers capacity some_caller = record {
  max_same = refl;
  size = refl;
  starts = refl;
  room = omega (arith, some_caller);
}

admitted-size :
    (q : WorkQueue) (n limit : ℕ)
    → q.cur_size ≡ n
    → q.max_size ≡ limit
    → (is_admitted q false ≡ ltb n limit) × (is_admitted q true ≡ true)
unfolding is_admitted
admitted-size q n limit e f = (ground (arith, e, f), ground arith)

-- Let at most `callers` ordinary calls at a time be between the test and the counting, and fewer
-- than 2 ^ 64 jobs be in progress. Then in every state that a new queue reaches the size is the
-- number of jobs in progress and `queued` that of the jobs begun so far, modulo 2 ^ 64; an ordinary
-- call is admitted exactly if fewer jobs are in progress than the limit, one on the white list
-- always; and the ordinary jobs in progress stay below the limit and the callers together.
pub work_queue_bounds :
    (max callers capacity : ℕ) (s : System)
    → capacity < 2 ^ 64
    → 0 < callers
    → Steps callers capacity (new_system max) s
    → (s.queue.cur_size ≡ all_in_progress s)
      × (s.queue.queued ≡ (started s.ordinary + started s.white_listed) % 2 ^ 64)
      × (is_admitted s.queue false ≡ ltb (all_in_progress s) (WorkQueue.max_size (new_queue max)))
      × (is_admitted s.queue true ≡ true)
      × (in_progress s.ordinary < WorkQueue.max_size (new_queue max) + callers)
work_queue_bounds max callers capacity s small some_caller st =
    let limit = WorkQueue.max_size (new_queue max) in
    let inv =
      Steps-Inv limit callers capacity small (Inv-new max callers capacity some_caller) st in
    let admitted = admitted-size s.queue (all_in_progress s) limit inv.size inv.max_same in
    (inv.size, inv.starts, admitted.0, admitted.1, omega (arith, inv.room))
