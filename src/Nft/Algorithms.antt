-- ===== src/Nft/Algorithms.antt =====
-- The algorithms of the standard library that src/etl/NFTHelpers.cpp calls: `std::sort`,
-- `std::set_difference` and `std::unique`. `sort` is for orders that leave nothing open; where
-- equivalent elements may come in any order, `std::sort` is a parameter (see Ripple).
use native.Mathlib.Nat.{le_refl}
use clio_migrator.Prelude.{
  ℕ, ◌-◌, ◌≤◌, ◌<◌, ◌≡◌, ◌≢◌, ◌==◌, refl, ap, inl, inr, Bool-cases, map, List, [], ◌∷◌, Bool, arith,
  compare, Ordering, ltb, if◌then◌else◌, count,
}

module _ {ℓ} {A : Type ℓ} (before : A → A → Bool) where
  unfoldable pub insert_sorted : A → List A → List A
  insert_sorted a [] = a ∷ []
  insert_sorted a (x ∷ xs) = if before x a then x ∷ insert_sorted a xs else a ∷ x ∷ xs

  unfoldable pub sort : List A → List A
  sort [] = []
  sort (x ∷ xs) = insert_sorted x (sort xs)

module _ {ℓ} {A : Type ℓ} (same : A → A → Bool) where
  -- `std::unique` with `erase`: of each run of equal neighbours the first stays.
  unfoldable pub unique_from : A → List A → List A
  unique_from a [] = a ∷ []
  unique_from a (x ∷ xs) =
      let run = unique_from a xs in
      let next = unique_from x xs in if same a x then run else a ∷ next

  unfoldable pub unique : List A → List A
  unfolding unique_from
  unique [] = []
  unique (x ∷ xs) = unique_from x xs

-- Both lists in ascending order.
unfoldable pub set_difference : List ℕ → List ℕ → List ℕ
set_difference [] ys = []
set_difference (x ∷ xs) [] = x ∷ xs
set_difference (x ∷ xs) (y ∷ ys) = elim (compare x y) [
  | Ordering.lt ↦ x ∷ set_difference xs (y ∷ ys)
  | Ordering.eq ↦ set_difference xs ys
  | Ordering.gt ↦ set_difference (x ∷ xs) ys
]

-- In ascending order, from `lo` on.
abbrev pub Ascends : ℕ → List ℕ → Type 0
Ascends lo [] = Unit {0}
Ascends lo (x ∷ xs) = (lo ≤ x) × Ascends x xs

insert-Ascends :
    (lo a : ℕ) (xs : List ℕ) → lo ≤ a → Ascends lo xs → Ascends lo (insert_sorted ltb a xs)
unfolding insert_sorted
insert-Ascends lo a [] h s = (h, tt)
insert-Ascends lo a (x ∷ xs) h s = ground (arith, insert-Ascends x a xs)

pub sort-Ascends : (xs : List ℕ) → Ascends 0 (sort ltb xs)
unfolding sort
sort-Ascends [] = tt
sort-Ascends (x ∷ xs) = insert-Ascends 0 x (sort ltb xs) (omega arith) (sort-Ascends xs)

count-insert : (a x : ℕ) (xs : List ℕ) → count a (insert_sorted ltb x xs) ≡ count a (x ∷ xs)
unfolding insert_sorted
count-insert a x [] = refl
count-insert a x (y ∷ ys) = ground (arith, count-insert a x ys)

pub count-sort : (a : ℕ) (xs : List ℕ) → count a (sort ltb xs) ≡ count a xs
unfolding sort
count-sort a [] = refl
count-sort a (x ∷ xs) = ground (arith, count-insert a x (sort ltb xs), count-sort a xs)

count_below : (lo a : ℕ) (xs : List ℕ) → a < lo → Ascends lo xs → count a xs ≡ 0
count_below lo a [] h s = refl
count_below lo a (x ∷ xs) h s = ground (arith, count_below x a xs)

-- `std::set_difference` takes multiplicities off.
pub count-set_difference :
    (a lo hi : ℕ) (xs ys : List ℕ)
    → Ascends lo xs
    → Ascends hi ys
    → count a (set_difference xs ys) ≡ count a xs - count a ys
unfolding set_difference
count-set_difference a lo hi [] ys s t = omega arith
count-set_difference a lo hi (x ∷ xs) [] s t = omega arith
count-set_difference a lo hi (x ∷ xs) (y ∷ ys) s t = ground (
  arith,
  count-set_difference a x y xs (y ∷ ys) s.1 (le_refl y, t.1),
  count-set_difference a x y xs ys s.1 t.1,
  count-set_difference a x y (x ∷ xs) ys (le_refl x, s.1) t.1,
  count_below x a xs,
  count_below y a ys,
)

module _ {ℓ κ} {A : Type ℓ} {B : Type κ} (same : B → B → Bool) (same' : A → A → Bool) (f : A → B)
    (agree : (x y : A) → same (f x) (f y) ≡ same' x y) where
  unique_from-map :
      (a : A) (xs : List A) → unique_from same (f a) (map f xs) ≡ map f (unique_from same' a xs)
  unfolding unique_from
  unique_from-map a [] = refl
  unique_from-map a (x ∷ xs) = elim (Bool-cases (same' a x)) [
    | inl e ↦ rw (agree a x, e) (unique_from-map a xs)
    | inr e ↦ rw (agree a x, e) (ap (◌∷◌ (f a)) (unique_from-map x xs))
  ]

  pub unique-map : (xs : List A) → unique same (map f xs) ≡ map f (unique same' xs)
  unfolding unique
  unique-map [] = refl
  unique-map (x ∷ xs) = unique_from-map x xs

-- No element equals the one before it.
abbrev pub DifferFrom : ℕ → List ℕ → Type 0
DifferFrom a [] = Unit {0}
DifferFrom a (x ∷ xs) = (a ≢ x) × DifferFrom x xs

abbrev pub Differ : List ℕ → Type 0
Differ [] = Unit {0}
Differ (x ∷ xs) = DifferFrom x xs

unique_from-DifferFrom :
    (b a : ℕ) (xs : List ℕ) → b ≢ a → DifferFrom b (unique_from (λ x y. x == y) a xs)
unfolding unique_from
unique_from-DifferFrom b a [] n = (n, tt)
unique_from-DifferFrom b a (x ∷ xs) n = elim (Bool-cases (a == x)) [
  | inl e ↦ rw e (unique_from-DifferFrom b a xs n)
  | inr e ↦ rw e (n, unique_from-DifferFrom a x xs (λ s. absurd (ground (arith, e, s))))
]

unique_from-Differ : (a : ℕ) (xs : List ℕ) → Differ (unique_from (λ x y. x == y) a xs)
unfolding unique_from
unique_from-Differ a [] = tt
unique_from-Differ a (x ∷ xs) = elim (Bool-cases (a == x)) [
  | inl e ↦ rw e (unique_from-Differ a xs)
  | inr e ↦ rw e (unique_from-DifferFrom a x xs (λ s. absurd (ground (arith, e, s))))
]

pub unique-Differ : (xs : List ℕ) → Differ (unique (λ x y. x == y) xs)
unfolding unique
unique-Differ [] = tt
unique-Differ (x ∷ xs) = unique_from-Differ x xs

unique_from-count :
    (k a : ℕ) (xs : List ℕ)
    → (count k (unique_from (λ x y. x == y) a xs) ≤ count k (a ∷ xs))
      × (0 < count k (a ∷ xs) → 0 < count k (unique_from (λ x y. x == y) a xs))
unfolding unique_from
unique_from-count k a [] = (le_refl _, λ h. h)
unique_from-count k a (x ∷ xs) =
    let (l, f) = unique_from-count k a xs in
    let (m, g) = unique_from-count k x xs in ground (arith, l, f, m, g)

pub unique-count :
    (k : ℕ) (xs : List ℕ)
    → (count k (unique (λ x y. x == y) xs) ≤ count k xs)
      × (0 < count k xs → 0 < count k (unique (λ x y. x == y) xs))
unfolding unique
unique-count k [] = (le_refl 0, λ h. h)
unique-count k (x ∷ xs) = unique_from-count k x xs
