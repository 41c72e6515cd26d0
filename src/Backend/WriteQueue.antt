-- ===== src/Backend/WriteQueue.antt =====
-- Asynchronous writes (executeAsyncWrite and the counter of outstanding requests of
-- src/backend/CassandraBackend.h, WriteCallbackData and processAsyncWriteResponse of
-- src/backend/CassandraBackend.cpp). Threads that write, and the answers of the server, interleave
-- in any order; a wait on a condition variable is a guard.
pub mod Invariant
pub mod Sync
pub mod Drain
mod Tests
use clio_migrator.Prelude.{
  ℕ, zero, suc, ◌+◌, ◌%◌, ◌^◌, ◌<◌, ◌≡◌, List, [], ◌∷◌, ◌++◌, map, Option, none, some, ltb,
  if◌then◌else◌,
}
use clio_migrator.Database.{Event}

-- How far a write is: called, let in by the throttle, counted, sent for the n-th retry, waiting
-- before the n-th retry, or acknowledged.
pub data Phase : Type 0 where
  called admitted counted acknowledged : Phase
  sent backing_off : ℕ → Phase

pub record Request : Type 0 where
  pub row : Event
  pub phase : Phase

-- numWriteRequestsOutstanding_, and the rows that the server has applied.
pub record Shared : Type 0 where
  pub outstanding : ℕ
  pub tables : List Event

pub record WriteQueue : Type 0 where
  pub shared : Shared
  pub requests : List Request

-- `canAddRequest`
abbrev pub CanAddRequest : ℕ → ℕ → Type 0
CanAddRequest max outstanding = outstanding < max

-- `++numWriteRequestsOutstanding_`
abbrev pub increment_outstanding : ℕ → ℕ
increment_outstanding n = (n + 1) % 2 ^ 32

-- `decrementOutstandingRequestCount`; `none` where it throws.
unfoldable pub decrement_outstanding : ℕ → Option ℕ
decrement_outstanding zero = none
decrement_outstanding (suc n) = some n

-- The milliseconds to wait before a retry: 2 ^ min(10, currentRetries).
unfoldable pub backoff : ℕ → ℕ
backoff retries = 2 ^ (if ltb retries 10 then retries else 10)

-- One step of one write. An answer that is an error may hide a row that was applied.
pub data Move (max : ℕ) (row : Event) (s : Shared) : Phase → Shared → Phase → Type 0 where
  admit : CanAddRequest max s.outstanding → Move max row s called s admitted
  count :
      Move max row s admitted
        (record s { outstanding = increment_outstanding s.outstanding })
        counted
  execute : Move max row s counted s (sent 0)
  fail_lost : {n : ℕ} → Move max row s (sent n) s (backing_off (suc n))
  fail_applied :
      {n : ℕ} → Move max row s (sent n) (record s { tables = row ∷ s.tables }) (backing_off (suc n))
  send_again : {n : ℕ} → Move max row s (backing_off n) s (sent n)
  succeed :
      {n k : ℕ}
      → decrement_outstanding s.outstanding ≡ some k
      → Move max row s (sent n) (record { outstanding = k; tables = row ∷ s.tables }) acknowledged

abbrev pub weight : (Phase → ℕ) → List Request → ℕ
weight w [] = 0
weight w (r ∷ rs) = w r.phase + weight w rs

-- Held by a thread that is inside `executeAsyncWrite`.
abbrev pub is_starting : Phase → ℕ
is_starting called = 1
is_starting admitted = 1
is_starting counted = 1
is_starting (sent n) = 0
is_starting (backing_off n) = 0
is_starting acknowledged = 0

-- A step of the system with `threads` threads that write, one call of each at a time.
pub data Step (max threads : ℕ) (q : WriteQueue) : WriteQueue → Type 0 where
  submit :
      (row : Event)
      → weight is_starting q.requests < threads
      → Step max threads q
          (record q { requests = record { row = row; phase = called } ∷ q.requests })
  move :
      (xs ys : List Request) (row : Event) {p p' : Phase} {s' : Shared}
      → q.requests ≡ xs ++ (record { row = row; phase = p } ∷ ys)
      → Move max row q.shared p s' p'
      → Step max threads q
          (record { shared = s'; requests = xs ++ (record { row = row; phase = p' } ∷ ys) })

pub data Steps (max threads : ℕ) (q : WriteQueue) : WriteQueue → Type 0 where
  here : Steps max threads q q
  next : {r s : WriteQueue} → Steps max threads q r → Step max threads r s → Steps max threads q s

abbrev pub idle : WriteQueue
idle = record { shared = record { outstanding = 0; tables = [] }; requests = [] }

abbrev pub rows_of : List Request → List Event
rows_of [] = []
rows_of (r ∷ rs) = r.row ∷ rows_of rs

-- `sync` returns only in such a state: `finishedAllRequests`.
abbrev pub CanSync : WriteQueue → Type 0
CanSync q = q.shared.outstanding ≡ 0
