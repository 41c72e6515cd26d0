-- ===== src/Backend/Commit/Server.antt =====
-- What the conditional updates of ledger_range do, as src/backend/CassandraBackend.h and .cpp rely
-- on it: an answer that is an error says nothing, and errors do not go on for ever.
use clio_migrator.Prelude.{
  ℕ, ◌≤◌, ◌<◌, ◌≡◌, ◌⊎◌, refl, List, [], ◌∷◌, Bool, true, false, Option, none, some, ◌==◌,
  if◌then◌else◌, if_cases,
}
use clio_migrator.Outcome.{Outcome, returns, throws, database_timeout}
use clio_migrator.Backend.Commit.{RangeUpdate, Reply, rc_error, no_rows, applied, RangeServer}

-- The rows of ledger_range by `is_latest`.
pub record RangeRows : Type 0 where
  pub first : Option ℕ
  pub latest : Option ℕ

abbrev pub is_expected : ℕ → Option ℕ → Bool
is_expected n none = true
is_expected n (some m) = m == n

abbrev pub row_at : Bool → RangeRows → Option ℕ
row_at true t = t.latest
row_at false t = t.first

abbrev pub with_row : Bool → ℕ → RangeRows → RangeRows
with_row true n t = record t { latest = some n }
with_row false n t = record t { first = some n }

-- `if sequence in (?,null)`
unfoldable pub matches : RangeUpdate → RangeRows → Bool
matches u t = is_expected u.expected (row_at u.is_latest t)

-- The rows when the update has been made, or refused.
unfoldable pub after : RangeUpdate → RangeRows → RangeRows
unfolding matches
after u t = if matches u t then with_row u.is_latest u.sequence t else t

-- What one attempt may do to the rows, and its answer.
pub data Cas (u : RangeUpdate) (t : RangeRows) : Reply → RangeRows → Type 0 where
  lost : Cas u t rc_error t
  lost_answer : Cas u t rc_error (after u t)
  answered : Cas u t (applied (matches u t)) (after u t)

-- The rows as a query gives them, in either order.
abbrev pub RowsRead : Option ℕ → Option ℕ → List ℕ → Type 0
RowsRead none none rows = rows ≡ []
RowsRead (some a) none rows = rows ≡ a ∷ []
RowsRead none (some b) rows = rows ≡ b ∷ []
RowsRead (some a) (some b) rows = (rows ≡ a ∷ b ∷ []) ⊎ (rows ≡ b ∷ a ∷ [])

abbrev pub IsRead : RangeRows → List ℕ → Type 0
IsRead t rows = RowsRead t.first t.latest rows

-- An error spends one of the errors that are left.
abbrev pub Spends : Reply → ℕ → ℕ → Type 0
Spends rc_error before left = left < before
Spends no_rows before left = left ≤ before
Spends (applied b) before left = left ≤ before

abbrev pub ReadGives : RangeRows → ℕ → ℕ → Outcome (List ℕ) → Type 0
ReadGives t before left (returns rows) = IsRead t rows × (left ≤ before)
ReadGives t before left (throws e) = (e ≡ database_timeout) × (left < before)

module _ {S : Type 0} where
  pub record IsServer (server : RangeServer S) (view : S → RangeRows) (budget : S → ℕ)
      : Type 0 where
    pub cas :
        (u : RangeUpdate) (s : S)
        → Cas u (view s) (server.execute u s).0 (view (server.execute u s).1)
    pub spends :
        (u : RangeUpdate) (s : S)
        → Spends (server.execute u s).0 (budget s) (budget (server.execute u s).1)
    pub reads :
        (s : S)
        → ReadGives
            (view s)
            (budget s)
            (budget (server.select_ledger_range s).1)
            (server.select_ledger_range s).0
    pub read_keeps : (s : S) → view (server.select_ledger_range s).1 ≡ view s
    pub sync_keeps : (s : S) → view (server.sync s) ≡ view s
    pub sync_spends : (s : S) → budget (server.sync s) ≤ budget s

with_row-with_row :
    (b : Bool) (n : ℕ) (t : RangeRows) → with_row b n (with_row b n t) ≡ with_row b n t
with_row-with_row true n t = refl
with_row-with_row false n t = refl

-- A second time the update changes nothing.
pub after-after : (u : RangeUpdate) (t : RangeRows) → after u (after u t) ≡ after u t
unfolding after
after-after u t =
    if_cases (λ x. (if matches u x then with_row u.is_latest u.sequence x else x) ≡ x) (matches u t)
      (λ e.
        if_cases (λ x. x ≡ with_row u.is_latest u.sequence t)
          (matches u (with_row u.is_latest u.sequence t))
          (λ f. with_row-with_row u.is_latest u.sequence t) (λ f. refl))
      (λ e. rw e refl)

-- Neither row is above the other one's end of the range.
abbrev pub Ordered : Option ℕ → Option ℕ → Type 0
Ordered none l = Unit {0}
Ordered (some a) none = Unit {0}
Ordered (some a) (some b) = a ≤ b
