-- ===== src/Cache/Sorted.antt =====
-- `std::map` with numbers for keys, as the list of its pairs in ascending order of the keys.
use clio_migrator.Prelude.{
  ℕ, suc, ◌≤◌, ◌<◌, ◌≡◌, refl, ◌≢◌, inl, inr, sym, ◌∙◌, false, Bool-cases, ltb→lt, List, [], ◌∷◌,
  Option, none, some, arith, ltb, ◌==◌, if◌then◌else◌,
}

abbrev pub or_else {κ} : {A : Type κ} → Option A → A → Option A
or_else none a = some a
or_else (some b) a = some b

test_below : (j i k : ℕ) → i < k → ltb j k ≡ false → (j == i) ≡ false
test_below j i k h e = ground arith

below_of_test : (j i k : ℕ) → i < k → ltb j k ≡ false → i < suc j
below_of_test j i k h e = ground arith

ltb_false→lt : (j i : ℕ) → ltb j i ≡ false → i < suc j
ltb_false→lt j i e = ground arith

none≢some {ℓ} : {A : Type ℓ} (a : A) → none ≢ some a
none≢some a e = cc

test_lt : (j i : ℕ) → j < i → (j == i) ≡ false
test_lt j i h = ground arith

module _ {ℓ} {V : Type ℓ} where
  -- `find`
  unfoldable pub find : ℕ → List (ℕ × V) → Option V
  find k [] = none
  find k ((j, v) ∷ m) = if j == k then some v else find k m

  -- `m[k] = v`
  unfoldable pub put : ℕ → V → List (ℕ × V) → List (ℕ × V)
  put k v [] = (k, v) ∷ []
  put k v ((j, w) ∷ m) =
      if ltb k j then (k, v) ∷ (j, w) ∷ m else if j == k then (k, v) ∷ m else (j, w) ∷ put k v m

  -- `erase`
  unfoldable pub erase : ℕ → List (ℕ × V) → List (ℕ × V)
  erase k [] = []
  erase k ((j, v) ∷ m) = if j == k then m else (j, v) ∷ erase k m

  -- `*upper_bound(k)`; `none` for `end()`
  unfoldable pub upper_bound : ℕ → List (ℕ × V) → Option (ℕ × V)
  upper_bound k [] = none
  upper_bound k ((j, v) ∷ m) = if ltb k j then some (j, v) else upper_bound k m

  -- `*--lower_bound(k)`; `none` where `lower_bound(k)` is `begin()`
  unfoldable pub below_lower_bound : ℕ → List (ℕ × V) → Option (ℕ × V)
  below_lower_bound k [] = none
  below_lower_bound k ((j, v) ∷ m) =
      if ltb j k then or_else (below_lower_bound k m) (j, v) else none

  -- The keys ascend strictly, from `lo` on.
  abbrev pub From : ℕ → List (ℕ × V) → Type 0
  From lo [] = Unit {0}
  From lo ((j, v) ∷ m) = (lo ≤ j) × From (suc j) m

  pub From-mono : (lo hi : ℕ) (m : List (ℕ × V)) → lo ≤ hi → From hi m → From lo m
  From-mono lo hi [] h s = tt
  From-mono lo hi (e ∷ m) h s = (omega arith, s.1)

  pub put-From : (lo k : ℕ) (v : V) (m : List (ℕ × V)) → lo ≤ k → From lo m → From lo (put k v m)
  unfolding put
  put-From lo k v [] h s = (h, tt)
  put-From lo k v ((j, w) ∷ m) h s = ground (arith, put-From (suc j) k v m)

  pub erase-From : (lo k : ℕ) (m : List (ℕ × V)) → From lo m → From lo (erase k m)
  unfolding erase
  erase-From lo k [] s = tt
  erase-From lo k ((j, w) ∷ m) s = ground (arith, erase-From (suc j) k m, From-mono lo (suc j) m)

  pub find_below : (lo k : ℕ) (m : List (ℕ × V)) → k < lo → From lo m → find k m ≡ none
  unfolding find
  find_below lo k [] h s = refl
  find_below lo k ((j, w) ∷ m) h s = ground (arith, find_below (suc j) k m)

  pub find-put :
      (k j : ℕ) (v : V) (m : List (ℕ × V))
      → find j (put k v m) ≡ (if k == j then some v else find j m)
  unfolding find put
  find-put k j v [] = refl
  find-put k j v ((i, w) ∷ m) = ground (arith, find-put k j v m)

  pub find-erase :
      (lo k j : ℕ) (m : List (ℕ × V))
      → From lo m
      → find j (erase k m) ≡ (if k == j then none else find j m)
  unfolding find erase
  find-erase lo k j [] s = ground arith
  find-erase lo k j ((i, w) ∷ m) s =
      ground (arith, find-erase (suc i) k j m s.1, find_below (suc i) j m)

  -- What `upper_bound` promises: the least key above `k`, or that there is none.
  abbrev pub IsNext : ℕ → List (ℕ × V) → Option (ℕ × V) → Type ℓ
  IsNext k m none = (i : ℕ) → k < i → find i m ≡ none
  IsNext k m (some (j, v)) =
      (k < j) × (find j m ≡ some v) × ((i : ℕ) → k < i → i < j → find i m ≡ none)

  -- What `--lower_bound` promises: the greatest key below `k`, or that there is none.
  abbrev pub IsPrevious : ℕ → List (ℕ × V) → Option (ℕ × V) → Type ℓ
  IsPrevious k m none = (i : ℕ) → i < k → find i m ≡ none
  IsPrevious k m (some (j, v)) =
      (j < k) × (find j m ≡ some v) × ((i : ℕ) → j < i → i < k → find i m ≡ none)

  IsNext-cons :
      (k j : ℕ) (v : V) (m : List (ℕ × V)) (r : Option (ℕ × V))
      → j ≤ k
      → IsNext k m r
      → IsNext k ((j, v) ∷ m) r
  unfolding find
  IsNext-cons k j v m none h n = λ i hi. ground (arith, n i)
  IsNext-cons k j v m (some (i, w)) h n = (n.0, ground (arith, n), λ l hl hr. ground (arith, n.2 l))

  pub upper_bound-IsNext : (lo k : ℕ) (m : List (ℕ × V)) → From lo m → IsNext k m (upper_bound k m)
  unfolding upper_bound find
  upper_bound-IsNext lo k [] s = λ i h. refl
  upper_bound-IsNext lo k ((j, v) ∷ m) s = elim (Bool-cases (ltb k j)) [
    | inl e ↦ rw e (ground arith, ground arith, λ i hl hr. ground (arith, find_below (suc j) i m))
    | inr e ↦
        rw e (
          IsNext-cons k j v m (upper_bound k m) (ground arith) (upper_bound-IsNext (suc j) k m s.1))
  ]

  -- An entry below `k` in front of keys that ascend.
  IsPrevious-cons :
      (k j : ℕ) (v : V) (m : List (ℕ × V)) (r : Option (ℕ × V))
      → j < k
      → From (suc j) m
      → IsPrevious k m r
      → IsPrevious k ((j, v) ∷ m) (or_else r (j, v))
  unfolding find
  IsPrevious-cons k j v m none h s n = (h, ground arith, λ i hl hr. ground (arith, n i))
  IsPrevious-cons k j v m (some (i, w)) h s n =
      let above : j < i = elim (Bool-cases (ltb j i)) [
        | inl e ↦ ltb→lt j i e
        | inr e ↦ absurd (none≢some w (sym (find_below (suc j) i m (ltb_false→lt j i e) s) ∙ n.1))
      ] in
      (n.0, rw (test_lt j i above) n.1, λ l hl hr. rw (test_lt j l (omega arith)) (n.2 l hl hr))

  pub below_lower_bound-IsPrevious :
      (lo k : ℕ) (m : List (ℕ × V)) → From lo m → IsPrevious k m (below_lower_bound k m)
  unfolding below_lower_bound find
  below_lower_bound-IsPrevious lo k [] s = λ i h. refl
  below_lower_bound-IsPrevious lo k ((j, v) ∷ m) s = elim (Bool-cases (ltb j k)) [
    | inl e ↦ rw e (
        IsPrevious-cons k j v m (below_lower_bound k m) (ground arith) s.1
          (below_lower_bound-IsPrevious (suc j) k m s.1))
    | inr e ↦
        rw e
          (λ i h. rw (test_below j i k h e) (find_below (suc j) i m (below_of_test j i k h e) s.1))
  ]
