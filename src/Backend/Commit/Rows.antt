-- ===== src/Backend/Commit/Rows.antt =====
-- Updates of the latest row of ledger_range, applied or refused (src/backend/CassandraBackend.h).
use clio_migrator.Prelude.{
  ℕ, ◌≤◌, ◌≡◌, ◌≢◌, inl, inr, refl, sym, subst, ◌∙◌, List, true, false, Option, none, some, ◌==◌,
  arith,
}
use clio_migrator.Backend.Reads.{range_of_rows}
use clio_migrator.Backend.Commit.{RangeServer, Writer, is_max, latest_update}
use clio_migrator.Backend.Commit.Server.{
  RangeRows, matches, after, IsRead, IsServer, Ordered, is_expected, RowsRead,
}
use clio_migrator.Backend.Commit.Applied.{Tells}

abbrev pub no_rows_yet : RangeRows
no_rows_yet = record { first = none; latest = none }

abbrev pub rows_of : ℕ → ℕ → RangeRows
rows_of a b = record { first = some a; latest = some b }

max_of_rows :
    {S : Type 0} (server : RangeServer S) (n b : ℕ) (f : Option ℕ) (l : List ℕ)
    → RowsRead f (some b) l
    → Ordered f (some b)
    → is_max server n (range_of_rows l) ≡ (b == n)
unfolding range_of_rows
max_of_rows server n b none l h o = rw h refl
max_of_rows server n b (some a) l (inl h) o = rw h (ground arith)
max_of_rows server n b (some a) l (inr h) o = rw h (ground arith)

-- The rows with a first ledger.
abbrev pub from_first : ℕ → Option ℕ → RangeRows
from_first a o = record { first = some a; latest = o }

module _ {S : Type 0} (server : RangeServer S) (w : Writer) (expected a : ℕ) where
  pub matches-expected :
      (o : Option ℕ)
      → is_expected expected o ≡ true
      → matches (latest_update server w expected) (from_first a o) ≡ true
  unfolding matches
  matches-expected o h = h

  pub after-expected :
      (o : Option ℕ)
      → is_expected expected o ≡ true
      → after (latest_update server w expected) (from_first a o) ≡ rows_of a w.ledger_sequence
  unfolding after
  after-expected o h = rw (matches-expected o h) refl

  pub matches-other :
      (b : ℕ) → b ≢ expected → matches (latest_update server w expected) (rows_of a b) ≡ false
  unfolding matches
  matches-other b h = ground arith

  pub after-other :
      (b : ℕ) → b ≢ expected → after (latest_update server w expected) (rows_of a b) ≡ rows_of a b
  unfolding after
  after-other b h = rw (matches-other b h) refl

module _ {S : Type 0} (server : RangeServer S) (view : S → RangeRows) (budget : S → ℕ)
    (is : IsServer server view budget) where
  pub Tells-expected :
      (w : Writer) (expected a : ℕ) (o : Option ℕ)
      → a ≤ w.ledger_sequence
      → is_expected expected o ≡ true
      → Tells server view budget is w.ledger_sequence
          (latest_update server w expected)
          (from_first a o)
  Tells-expected w expected a o h e l r =
      max_of_rows server w.ledger_sequence w.ledger_sequence (some a) l
        (subst (λ t. IsRead t l) (after-expected server w expected a o e) r) h
      ∙ ground arith
      ∙ sym (matches-expected server w expected a o e)

  pub Tells-other :
      (w : Writer) (expected a b : ℕ)
      → a ≤ b
      → b ≢ expected
      → b ≢ w.ledger_sequence
      → Tells server view budget is w.ledger_sequence
          (latest_update server w expected)
          (rows_of a b)
  Tells-other w expected a b h e k l r =
      max_of_rows server w.ledger_sequence b (some a) l
        (subst (λ t. IsRead t l) (after-other server w expected a b e) r) h
      ∙ ground arith
      ∙ sym (matches-other server w expected a b e)
