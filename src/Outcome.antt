-- ===== src/Outcome.antt =====
-- What a call comes back with: a value, or the exception that it throws.
use clio_migrator.Prelude.{ℕ, ◌≡◌, ◌≢◌, refl, ap, List, [], ◌∷◌, Option, none, some}

pub data Exception : Type 0 where
  -- Backend::DatabaseTimeout (src/backend/BackendInterface.h)
  database_timeout : Exception
  -- std::bad_optional_access, by `value()`
  bad_optional_access : Exception
  -- thrown inside a library, by its kind
  library_error : ℕ → Exception
  -- std::runtime_error of the program, with the transaction that its text names
  unexpected_mint_data unknown_burn_owner unexpected_accept_data : ℕ → Exception
  -- an index past the end of a vector, or `*` of an empty optional: undefined in the source
  out_of_range : Exception
  -- not of the program: a loop of the model has used up its fuel
  out_of_fuel : Exception
  too_many_retries no_transaction_hash not_written uri_mismatch neighbors_not_included : Exception

pub data Outcome {ℓ} (A : Type ℓ) : Type ℓ where
  returns : A → Outcome A
  throws : Exception → Outcome A

infixl 5 ◌>>=◌
abbrev pub ◌>>=◌ {ℓ κ} : {A : Type ℓ} {B : Type κ} → Outcome A → (A → Outcome B) → Outcome B
returns a >>= f = f a
throws e >>= f = throws e

-- `value()` of an optional
abbrev pub value {ℓ} : {A : Type ℓ} → Option A → Outcome A
value none = throws bad_optional_access
value (some a) = returns a

-- A call for each element, in order.
abbrev pub traverse {ℓ κ} : {A : Type ℓ} {B : Type κ} → (A → Outcome B) → List A → Outcome (List B)
traverse f [] = returns []
traverse f (x ∷ xs) = do y ← f x; ys ← traverse f xs; returns (y ∷ ys)

-- Inversion of a bind that returns.
pub >>=-eq-returns {ℓ κ} :
    {A : Type ℓ} {B : Type κ} (m : Outcome A) (f : A → Outcome B) {b : B}
    → (m >>= f) ≡ returns b
    → (a : A) × (m ≡ returns a) × (f a ≡ returns b)
>>=-eq-returns (returns a) f h = (a, refl, h)
>>=-eq-returns (throws e) f h = cc

returned_or {ℓ} : {A : Type ℓ} → A → Outcome A → A
returned_or a (returns b) = b
returned_or a (throws e) = a

pub returns-injective {ℓ} : {A : Type ℓ} (a b : A) → returns a ≡ returns b → a ≡ b
unfolding returned_or
returns-injective a b h = ap (returned_or a) h

pub returns≢throws {ℓ} : {A : Type ℓ} (a : A) (e : Exception) → returns a ≢ throws e
returns≢throws a e h = cc
