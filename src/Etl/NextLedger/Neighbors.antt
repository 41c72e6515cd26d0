-- ===== src/Etl/NextLedger/Neighbors.antt =====
-- The key that follows another one among the entries of the cache (for buildNextLedger of
-- src/etl/ReportingETL.cpp).
use clio_migrator.Prelude.{
  ℕ, ◌<◌, ◌≡◌, sym, ◌∙◌, ◌⊎◌, inl, inr, false, Option, none, some, ltb, ltb→lt, Bool-cases, arith,
  subst,
}
use clio_migrator.Types.{LedgerObject, first_key}
use clio_migrator.Cache.{CacheEntry, SimpleCache}
use clio_migrator.Cache.Sorted.{find, From, upper_bound, upper_bound-IsNext}
use clio_migrator.Cache.Invariant.{IsSuccessor, IsPredecessor}
use clio_migrator.Etl.NextLedger.{key_of, key_or}
use clio_migrator.Etl.NextLedger.Entries.{Entries, Live}

-- `n` is the least key above `k`, or there is none.
abbrev pub Next : Entries → ℕ → Option ℕ → Type 0
Next m k none = (i : ℕ) → k < i → find i m ≡ none
Next m k (some n) = (k < n) × Live m n × ((i : ℕ) → k < i → i < n → find i m ≡ none)

-- The first key, or one that is there.
abbrev pub Starts : Entries → ℕ → Type 0
Starts m k = (k ≡ first_key) ⊎ Live m k

pub Next-found : (k : ℕ) (m : Entries) → From 0 m → (n : Option ℕ) × Next m k n
Next-found k m o = go (upper_bound k m) (upper_bound-IsNext 0 k m o)
  where
    go :
        (r : Option (ℕ × CacheEntry))
        → clio_migrator.Cache.Sorted.IsNext k m r
        → (n : Option ℕ) × Next m k n
    go none h = (none, h)
    go (some (j, e)) (a, b, c) = (some j, (a, (e, b), c))

pub Next-IsSuccessor :
    (k : ℕ) (c : SimpleCache) (o : Option LedgerObject)
    → IsSuccessor k c o
    → Next c.entries k (key_of o)
Next-IsSuccessor k c none h = h
Next-IsSuccessor k c (some o) (a, (s, b), d) = (a, (record { seq = s; blob = o.blob }, b), d)

absent : (m : Entries) (k : ℕ) → Live m k → find k m ≡ none → ⊥
absent m k (e, h) q = let p = sym h ∙ q in cc

-- From a start below `k`, with nothing between them, the predecessor of `k` is that start.
pub lower_key :
    (c : SimpleCache) (k m : ℕ) (lb : Option LedgerObject)
    → IsPredecessor m c lb
    → Starts c.entries k
    → k < m
    → ((i : ℕ) → k < i → i < m → find i c.entries ≡ none)
    → key_or first_key (key_of lb) ≡ k
lower_key c k m none p (inl e) l b = sym e
lower_key c k m none p (inr h) l b = absurd (absent c.entries k h (p k l))
lower_key c k m (some o) (less, (s, f), none_between) st l b = elim (Bool-cases (ltb k o.key)) [
  | inl e ↦ absurd (absent c.entries o.key (_, f) (b o.key (ltb→lt k o.key e) less))
  | inr e ↦ elim (Bool-cases (ltb o.key k)) [
    | inl g ↦ elim st [
      | inl z ↦ absurd (ground (arith, z, g))
      | inr h ↦ absurd (absent c.entries k h (none_between k (ltb→lt o.key k g) l))
    ]
    | inr g ↦ ground (arith, e, g)
  ]
]

abbrev pub lower : Option LedgerObject → ℕ
lower lb = key_or first_key (key_of lb)

lower_between :
    (c : SimpleCache) (m : ℕ) (lb : Option LedgerObject)
    → IsPredecessor m c lb
    → (i : ℕ) → lower lb < i
    → i < m
    → find i c.entries ≡ none
lower_between c m none p i a b = p i b
lower_between c m (some o) p i a b = p.2 i a b

lower_lt :
    (c : SimpleCache) (m : ℕ) (lb : Option LedgerObject)
    → 0 < m
    → IsPredecessor m c lb
    → lower lb < m
lower_lt c m none h p = h
lower_lt c m (some o) h p = p.0

-- Before a key that is gone, its predecessor is followed by its successor.
pub Next-over :
    (c : SimpleCache) (m : ℕ) (lb : Option LedgerObject) (ub : Option ℕ)
    → 0 < m
    → IsPredecessor m c lb
    → Next c.entries m ub
    → find m c.entries ≡ none
    → Next c.entries (lower lb) ub
Next-over c m lb ub h p n gone = go ub n
  where
    at_most : (i : ℕ) → lower lb < i → ltb m i ≡ false → find i c.entries ≡ none
    at_most i a e = elim (Bool-cases (ltb i m)) [
      | inl f ↦ lower_between c m lb p i a (ltb→lt i m f)
      | inr f ↦ let q : m ≡ i = ground (arith, e, f) in subst (λ j. find j c.entries ≡ none) q gone
    ]

    go : (ub : Option ℕ) → Next c.entries m ub → Next c.entries (lower lb) ub
    go none n =
        λ i a. elim (Bool-cases (ltb m i)) [ inl e ↦ n i (ltb→lt m i e) | inr e ↦ at_most i a e ]
    go (some u) (less, there, b) = (
      omega (arith, lower_lt c m lb h p, less),
      there,
      λ i a l. elim (Bool-cases (ltb m i)) [ inl e ↦ b i (ltb→lt m i e) l | inr e ↦ at_most i a e ],
    )

-- A key that is there follows its predecessor.
pub Next-lower :
    (c : SimpleCache) (m : ℕ) (lb : Option LedgerObject)
    → 0 < m
    → IsPredecessor m c lb
    → Live c.entries m
    → Next c.entries (lower lb) (some m)
Next-lower c m lb h p there = (lower_lt c m lb h p, there, lower_between c m lb p)
