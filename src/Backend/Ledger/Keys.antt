-- ===== src/Backend/Ledger/Keys.antt =====
-- From key to key through a ledger (src/backend/BackendInterface.cpp).
use clio_migrator.Prelude.{
  ℕ, ◌<◌, ◌≡◌, refl, sym, ap, subst, ◌∙◌, ◌++◌, append_assoc, List, [], ◌∷◌, false, Option, none,
  some, ltb, arith, if_cases, ◌==◌, All, All-back,
}
use clio_migrator.Types.{last_key}
use clio_migrator.Cache.{SimpleCache, get_successor}
use clio_migrator.Database.{Cassandra}
use clio_migrator.Backend.Reads.{not_last}
use clio_migrator.Backend.Ledger.{next_key, or_last, Above}

abbrev pub head? : List ℕ → Option ℕ
head? [] = none
head? (k ∷ ks) = some k

abbrev tail : List ℕ → List ℕ
tail [] = []
tail (k ∷ ks) = ks

abbrev Ascending : List ℕ → Type 0
Ascending [] = Unit {0}
Ascending (k ∷ ks) = Above k ks

tail-Ascending : (k : ℕ) (ks : List ℕ) → Above k ks → Ascending ks
tail-Ascending k [] h = tt
tail-Ascending k (j ∷ ks) h = h.2

above_last : (low c : ℕ) (pre ys : List ℕ) → Above low (pre ++ (c ∷ ys)) → low < c
above_last low c [] ys h = h.0
above_last low c (p ∷ pre) ys h = omega (arith, h.0, above_last p c pre ys h.2)

next_first : (c : ℕ) (ys : List ℕ) → Above c ys → next_key ys c ≡ head? ys
next_first c [] h = refl
next_first c (y ∷ ys) h =
    if_cases (λ o. o ≡ some y) (ltb c y) (λ e. refl) (λ e. absurd (ground (arith, e, h.0)))

next_after :
    (c : ℕ) (pre ys : List ℕ)
    → Ascending (pre ++ (c ∷ ys))
    → next_key (pre ++ (c ∷ ys)) c ≡ head? ys
next_after c [] ys h =
    if_cases (λ o. o ≡ head? ys) (ltb c c) (λ e. absurd (ground (arith, e)))
      (λ e. next_first c ys h)
next_after c (p ∷ pre) ys h =
    if_cases (λ o. o ≡ head? ys) (ltb c p)
      (λ e. let l = above_last p c pre ys h in absurd (ground (arith, e, l)))
      (λ e. next_after c pre ys (tail-Ascending p (pre ++ (c ∷ ys)) h))

below_last_key : (c y : ℕ) (pre ys : List ℕ) → Ascending (pre ++ (c ∷ (y ∷ ys))) → y < last_key
below_last_key c y [] ys h = h.1
below_last_key c y (p ∷ pre) ys h =
    below_last_key c y pre ys (tail-Ascending p (pre ++ (c ∷ (y ∷ ys))) h)

-- The keys behind `c`, where 0 stands before all of them.
abbrev pub At : List ℕ → ℕ → List ℕ → Type 0
At ks c ys = (pre : List ℕ) × (0 ∷ ks ≡ pre ++ (c ∷ ys))

pub At-next : (ks : List ℕ) (c y : ℕ) (ys : List ℕ) → At ks c (y ∷ ys) → At ks y ys
At-next ks c y ys (pre, e) = (pre ++ (c ∷ []), e ∙ sym (append_assoc pre (c ∷ []) (y ∷ ys)))

skip_zero : (c : ℕ) (ks : List ℕ) → next_key (0 ∷ ks) c ≡ next_key ks c
skip_zero c ks =
    if_cases (λ o. o ≡ next_key ks c) (ltb c 0) (λ b. absurd (ground (arith, b))) (λ b. refl)

pub At-All :
    (P : ℕ → Type 0) (ks : List ℕ) (c : ℕ) (ys : List ℕ)
    → At ks c ys
    → All P (0 ∷ ks)
    → P c × All P ys
At-All P ks c ys (pre, e) h = All-back P pre (c ∷ ys) (subst (All P) e h)

-- The keys behind a key of the ledger are keys of the ledger.
pub At-behind_All :
    (P : ℕ → Type 0) (ks : List ℕ) (c : ℕ) (ys : List ℕ) → At ks c ys → All P ks → All P ys
At-behind_All P ks c ys ([], e) h = subst (All P) (ap tail e) h
At-behind_All P ks c ys (p ∷ pre, e) h = (All-back P pre (c ∷ ys) (subst (All P) (ap tail e) h)).1

-- In a cache without entries nothing is found, and it stays so.
pub get_successor-none :
    (key seq : ℕ) (c : SimpleCache) → c.full ≡ false → get_successor key seq c ≡ (none, c)
unfolding get_successor
get_successor-none key seq c h = rw h refl

module _ (ks : List ℕ) (up : Above 0 ks) where
  pub At-successor : (c : ℕ) (ys : List ℕ) → At ks c ys → next_key ks c ≡ head? ys
  At-successor c ys (pre, e) =
      sym (skip_zero c ks) ∙ ap (λ l. next_key l c) e ∙ next_after c pre ys (subst Ascending e up)

  At-below : (c y : ℕ) (ys : List ℕ) → At ks c (y ∷ ys) → y < last_key
  At-below c y ys (pre, e) = below_last_key c y pre ys (subst Ascending e up)

  pub not_last-head :
      (c : ℕ) (ys : List ℕ)
      → At ks c ys
      → (db : Cassandra) → not_last db (some (or_last (head? ys))) ≡ head? ys
  not_last-head c [] a db = refl
  not_last-head c (y ∷ ys) a db =
      if_cases (λ o. o ≡ some y) (y == last_key)
        (λ e. let l = At-below c y ys a in absurd (ground (arith, e, l))) (λ e. refl)
