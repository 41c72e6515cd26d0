-- ===== src/Verifier/Tokens.antt =====
-- The comparison of two texts that a verification makes (verifyNFTs of src/main/verify.cpp).
use clio_migrator.Prelude.{
  ℕ, ◌≡◌, refl, ap₂, List, [], ◌∷◌, Bool, true, false, ◌&&◌, ◌==◌, ==_iff, arith,
}
use clio_migrator.Verifier.{same_text}

andb-true : (a b : Bool) → a && b ≡ true → (a ≡ true) × (b ≡ true)
andb-true true b h = (refl, h)
andb-true false b h = absurd (ground arith)

pub same_text_eq : (xs ys : List ℕ) → same_text xs ys ≡ true → xs ≡ ys
unfolding same_text
same_text_eq [] [] h = refl
same_text_eq [] (y ∷ ys) h = absurd (ground arith)
same_text_eq (x ∷ xs) [] h = absurd (ground arith)
same_text_eq (x ∷ xs) (y ∷ ys) h =
    let (p, q) = andb-true (x == y) (same_text xs ys) h in
    ap₂ ◌∷◌ ((==_iff x y).0 p) (same_text_eq xs ys q)
