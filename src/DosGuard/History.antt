-- ===== src/DosGuard/History.antt =====
-- Runs of the methods of the guard of src/webserver/DOSGuard.h, and what a client has used
-- according to a history.
use clio_migrator.Prelude.{ℕ, ◌+◌, ◌-◌, List, [], ◌∷◌, Option, none, some, ◌==◌, if◌then◌else◌}
use clio_migrator.DosGuard.{Limits, DosGuard, fresh, increment, decrement, add, request, clear}

pub data Call : Type 0 where
  increments decrements requests : ℕ → Call
  adds : ℕ → ℕ → Call
  clears : Call

-- One call; `none` if an assertion fails.
abbrev pub call : Limits → Call → DosGuard → Option DosGuard
call limits (increments ip) g = some (increment limits ip g)
call limits (decrements ip) g = decrement limits ip g
call limits (requests ip) g = some (request limits ip g).1
call limits (adds ip n) g = some (add limits ip n g).1
call limits clears g = some (clear limits g)

abbrev pub call_after : Limits → Call → Option DosGuard → Option DosGuard
call_after limits c none = none
call_after limits c (some g) = call limits c g

-- The calls of a history, the last one first.
abbrev pub run : Limits → List Call → Option DosGuard
run limits [] = some fresh
run limits (c ∷ cs) = call_after limits c (run limits cs)

-- What a client has used according to a history: the bytes and the requests since the last
-- `clear`, and the connections that are open.
abbrev pub bytes : ℕ → List Call → ℕ
bytes ip [] = 0
bytes ip (adds j n ∷ cs) = if j == ip then bytes ip cs + n else bytes ip cs
bytes ip (clears ∷ cs) = 0
bytes ip (increments j ∷ cs) = bytes ip cs
bytes ip (decrements j ∷ cs) = bytes ip cs
bytes ip (requests j ∷ cs) = bytes ip cs

abbrev pub request_count : ℕ → List Call → ℕ
request_count ip [] = 0
request_count ip (requests j ∷ cs) =
    if j == ip then request_count ip cs + 1 else request_count ip cs
request_count ip (clears ∷ cs) = 0
request_count ip (increments j ∷ cs) = request_count ip cs
request_count ip (decrements j ∷ cs) = request_count ip cs
request_count ip (adds j n ∷ cs) = request_count ip cs

abbrev pub open_count : ℕ → List Call → ℕ
open_count ip [] = 0
open_count ip (increments j ∷ cs) = if j == ip then open_count ip cs + 1 else open_count ip cs
open_count ip (decrements j ∷ cs) = if j == ip then open_count ip cs - 1 else open_count ip cs
open_count ip (requests j ∷ cs) = open_count ip cs
open_count ip (adds j n ∷ cs) = open_count ip cs
open_count ip (clears ∷ cs) = open_count ip cs
