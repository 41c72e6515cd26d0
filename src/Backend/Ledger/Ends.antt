-- ===== src/Backend/Ledger/Ends.antt =====
-- Where a page of a ledger leaves off (fetchLedgerPage of src/backend/BackendInterface.cpp).
use clio_migrator.Prelude.{
  ℕ, suc, ◌+◌, ◌<◌, ◌≡◌, ◌⊎◌, inl, inr, refl, ap, subst, ◌∙◌, ◌++◌, append_assoc, List, [], ◌∷◌,
  Option, none, some, ltb, take, drop, take-split, length, length-append, arith, if_cases,
}
use clio_migrator.Backend.Page.{page_cursor, last_of}
use clio_migrator.Backend.Ledger.Keys.{At}

abbrev cursor_at : ℕ → List ℕ → Option ℕ
cursor_at n ys = page_cursor (take n ys) (ltb (length ys) n)

-- The page has the rest of the ledger, or a cursor at the last of its keys.
abbrev pub LeavesOff : List ℕ → ℕ → List ℕ → Type 0
LeavesOff ks n ys =
    ((take n ys ≡ ys) × (cursor_at n ys ≡ none))
    ⊎ ((s : ℕ) × (cursor_at n ys ≡ some s)
        × At ks s (drop n ys)
        × (ys ≡ take n ys ++ drop n ys)
        × (length (drop n ys) < length ys))

last_split :
    (k : ℕ) (keys : List ℕ)
    → (xs : List ℕ) × (s : ℕ) × (k ∷ keys ≡ xs ++ (s ∷ [])) × (last_of (k ∷ keys) ≡ some s)
unfolding last_of
last_split k [] = ([], k, refl, refl)
last_split k (j ∷ keys) = let (xs, s, e, f) = last_split j keys in (k ∷ xs, s, ap (◌∷◌ k) e, f)

At-behind :
    (ks : List ℕ) (c s : ℕ) (xs p zs : List ℕ) → p ≡ xs ++ (s ∷ []) → At ks c (p ++ zs) → At ks s zs
At-behind ks c s xs p zs e (pre, f) =
    (pre ++ (c ∷ xs), f ∙ ap (λ l. pre ++ (c ∷ (l ++ zs))) e ∙ simp append_assoc)

leaves_off :
    (ks : List ℕ) (l c : ℕ) (ys p : List ℕ)
    → take (suc l) ys ≡ p
    → length p ≡ suc l
    → At ks c ys
    → ys ≡ take (suc l) ys ++ drop (suc l) ys
    → LeavesOff ks (suc l) ys
unfolding page_cursor
leaves_off ks l c ys [] q full a split = absurd (omega (arith, full))
leaves_off ks l c ys (k ∷ p) q full a split =
    let (xs, s, e, f) = last_split k p in
    let long : length ys ≡ suc l + length (drop (suc l) ys) =
      ap length split
      ∙ length-append (take (suc l) ys) (drop (suc l) ys)
      ∙ ap (λ t. length t + length (drop (suc l) ys)) q
      ∙ ap (λ t. t + length (drop (suc l) ys)) full in
    inr (
      s,
      if_cases (λ o. o ≡ some s) (ltb (length ys) (suc l)) (λ b. absurd (ground (arith, b, long)))
          (λ b. ap last_of q ∙ f),
      At-behind ks c s xs (take (suc l) ys) (drop (suc l) ys) (q ∙ e) (subst (At ks c) split a),
      split,
      omega (arith, long),
    )

pub LeavesOff-page : (ks : List ℕ) (l c : ℕ) (ys : List ℕ) → At ks c ys → LeavesOff ks (suc l) ys
unfolding page_cursor
LeavesOff-page ks l c ys a = elim (take-split (suc l) ys) [
  | inr (short, all) ↦ inl (
    all,
    if_cases (λ o. o ≡ none) (ltb (length ys) (suc l)) (λ b. refl)
        (λ b. let e = ap length all in absurd (ground (arith, b, short, e))),
  )
  | inl (full, split) ↦ leaves_off ks l c ys (take (suc l) ys) refl full a split
]
