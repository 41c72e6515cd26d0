-- ===== src/Backend/WriteQueue/Tests.antt =====
-- A run of one write that fails once, its row applied or not, and the theorems at it.
use clio_migrator.Prelude.{◌+◌, ◌<◌, ◌≡◌, ◌↔◌, refl, List, [], ◌∷◌, ◌++◌, some, ℕ, arith}
use mathlib.Core.List.{Memᴰ}
use clio_migrator.Database.{Event, insert_issuer_nft}
use clio_migrator.Backend.WriteQueue.{
  Phase, acknowledged, sent, Request, WriteQueue, decrement_outstanding, admit, count, execute,
  fail_applied, send_again, succeed, submit, move, Steps, here, next, idle, rows_of, CanSync,
  backoff,
}
use clio_migrator.Backend.WriteQueue.Sync.{sync_stores, outstanding_bounds}
use clio_migrator.Backend.WriteQueue.Drain.{drains}

abbrev link : Event
link = insert_issuer_nft 1 2 3

abbrev one : Phase → List Request
one p = record { row = link; phase = p } ∷ []

abbrev in_flight : WriteQueue
in_flight = record {
  shared = record { outstanding = 1; tables = link ∷ [] };
  requests = one (sent 1);
}

abbrev finished : WriteQueue
finished = record {
  shared = record { outstanding = 0; tables = link ∷ link ∷ [] };
  requests = one acknowledged;
}

-- The server applies the row and its answer is an error; the row is sent again.
abbrev to_flight : Steps 1 1 idle in_flight
to_flight =
    next
      (next
        (next
          (next
            (next (next here (submit link (omega arith)))
              (move [] [] link refl (admit (omega arith))))
            (move [] [] link refl count))
          (move [] [] link refl execute))
        (move [] [] link refl fail_applied))
      (move [] [] link refl send_again)

one_down : decrement_outstanding 1 ≡ some 0
unfolding decrement_outstanding
one_down = refl

abbrev to_finished : Steps 1 1 idle finished
to_finished = next to_flight (move [] [] link refl (succeed one_down))

sync_stores_example : Memᴰ link (link ∷ link ∷ []) ↔ Memᴰ link (link ∷ [])
sync_stores_example =
    sync_stores 1 1 finished (omega arith) (omega arith) to_finished refl refl link

outstanding_bounds_example :
    (1 < 1 + 1)
    × ((xs ys : List Request) (row : Event) (n : ℕ)
        → one (sent 1) ≡ xs ++ (record { row = row; phase = sent n } ∷ ys)
        → (k : ℕ) × (decrement_outstanding 1 ≡ some k))
outstanding_bounds_example = outstanding_bounds 1 1 in_flight (omega arith) (omega arith) to_flight

drains_example :
    (r : WriteQueue) × Steps 1 1 in_flight r × CanSync r × (rows_of r.requests ≡ link ∷ [])
drains_example = drains 1 1 in_flight (omega arith) (omega arith) to_flight

third_wait : backoff 3 ≡ 8
unfolding backoff
third_wait = refl

longest_wait : backoff 40 ≡ 1024
unfolding backoff
longest_wait = refl
