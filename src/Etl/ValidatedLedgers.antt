-- ===== src/Etl/ValidatedLedgers.antt =====
-- NetworkValidatedLedgers of src/etl/ETLHelpers.h. Each method holds the mutex; a wait gives `none`
-- as long as it lasts.
use clio_migrator.Prelude.{
  ℕ, ◌≤◌, ◌≡◌, ◌≢◌, ◌↔◌, refl, sym, ap, inl, inr, List, [], ◌∷◌, Bool, true, false, Option, none,
  some, ltb, leb, if◌then◌else◌, Bool-cases, arith, subst, some-injective,
}
use mathlib.Core.List.{Memᴰ}
use mathlib.Core.List.Memᴰ

-- `max_` after `push(idx)`
unfoldable pub push : ℕ → Option ℕ → Option ℕ
push idx none = some idx
push idx (some max) = if ltb max idx then some idx else some max

unfoldable pub get_most_recent : Option ℕ → Option ℕ
get_most_recent max = max

-- `max_ && sequence <= *max_`
abbrev pub pred : ℕ → Option ℕ → Bool
pred sequence none = false
pred sequence (some max) = leb sequence max

-- With a time to wait at most the answer comes then, or earlier at a notification, as it stands;
-- without one it comes when the ledger is validated.
unfoldable pub wait_until_validated_by_network : ℕ → Bool → Option ℕ → Option Bool
wait_until_validated_by_network sequence true max = some (pred sequence max)
wait_until_validated_by_network sequence false max = if pred sequence max then some true else none

-- The ledgers pushed, the last one first.
abbrev pub pushed : List ℕ → Option ℕ
pushed [] = none
pushed (idx ∷ ledgers) = push idx (pushed ledgers)

abbrev pub IsMax : List ℕ → Option ℕ → Type 0
IsMax ledgers none = ledgers ≡ []
IsMax ledgers (some max) = Memᴰ max ledgers × ((idx : ℕ) → Memᴰ idx ledgers → idx ≤ max)

push-IsMax :
    (idx : ℕ) (ledgers : List ℕ) (o : Option ℕ)
    → IsMax ledgers o
    → IsMax (idx ∷ ledgers) (push idx o)
unfolding push
push-IsMax idx ledgers none h = (
  Memᴰ.head refl,
  λ j m. elim (Memᴰ.cases_cons m) [
    | inl e ↦ omega (arith, e)
    | inr m' ↦ elim (subst (Memᴰ j) h m') [ ]
  ],
)
push-IsMax idx ledgers (some max) h = elim (Bool-cases (ltb max idx)) [
  | inl e ↦ rw e (
      (
        Memᴰ.head refl,
        λ (j : ℕ) (m : Memᴰ j (idx ∷ ledgers)). elim (Memᴰ.cases_cons m) [
          | inl q ↦ omega (arith, q)
          | inr m' ↦ above e (h.1 j m')
        ],
      ))
  | inr e ↦ rw e (
      (
        Memᴰ.tail h.0,
        λ (j : ℕ) (m : Memᴰ j (idx ∷ ledgers)). elim (Memᴰ.cases_cons m) [
          | inl q ↦ below e q
          | inr m' ↦ h.1 j m'
        ],
      ))
]
  where
    above : ltb max idx ≡ true → {j : ℕ} → j ≤ max → j ≤ idx
    above e l = ground arith

    below : ltb max idx ≡ false → {j : ℕ} → j ≡ idx → j ≤ max
    below e q = ground arith

pushed-IsMax : (ledgers : List ℕ) → IsMax ledgers (pushed ledgers)
pushed-IsMax [] = refl
pushed-IsMax (idx ∷ ledgers) = push-IsMax idx ledgers (pushed ledgers) (pushed-IsMax ledgers)

-- Some ledger that is at least as new was pushed.
abbrev pub IsValidated : ℕ → List ℕ → Type 0
IsValidated sequence ledgers = (idx : ℕ) × Memᴰ idx ledgers × (sequence ≤ idx)

pred_lem :
    (sequence : ℕ) (ledgers : List ℕ) (o : Option ℕ)
    → IsMax ledgers o
    → (pred sequence o ≡ true) ↔ IsValidated sequence ledgers
pred_lem sequence ledgers none h = (λ e. cc, λ (idx, m, l). elim (subst (Memᴰ idx) h m) [ ])
pred_lem sequence ledgers (some max) h =
    (λ e. (max, h.0, ground (arith, e)), λ (idx, m, l). let k = h.1 idx m in ground (arith, k, l))

-- Of the ledgers pushed, in whatever order, the most recent one is the newest, or none if there
-- are none; a wait with a time limit that ends then says whether a ledger at least as new as the
-- asked one was pushed; a wait without one goes on until that is so, and never gives false.
pub validated_lem :
    (sequence : ℕ) (ledgers : List ℕ)
    → IsMax ledgers (get_most_recent (pushed ledgers))
      × ((wait_until_validated_by_network sequence true (pushed ledgers) ≡ some true)
          ↔ IsValidated sequence ledgers)
      × ((wait_until_validated_by_network sequence false (pushed ledgers) ≡ some true)
          ↔ IsValidated sequence ledgers)
      × (wait_until_validated_by_network sequence false (pushed ledgers) ≢ some false)
unfolding get_most_recent wait_until_validated_by_network
validated_lem sequence ledgers =
    let (to, from) = pred_lem sequence ledgers (pushed ledgers) (pushed-IsMax ledgers) in
    (
      pushed-IsMax ledgers,
      (λ e. to (some-injective (pred sequence (pushed ledgers)) true e), λ v. ap some (from v)),
      (λ e. to (waited (pred sequence (pushed ledgers)) true e).0, λ v. rw (from v) refl),
      λ e. let f = (waited (pred sequence (pushed ledgers)) false e).1 in cc,
    )
  where
    waited : (b c : Bool) → (if b then some true else none) ≡ some c → (b ≡ true) × (c ≡ true)
    waited true c e = (refl, sym (some-injective true c e))
    waited false c e = cc
