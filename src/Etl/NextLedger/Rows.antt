-- ===== src/Etl/NextLedger/Rows.antt =====
-- The rows of successors and what they make of the table (buildNextLedger of
-- src/etl/ReportingETL.cpp; the table is read by doFetchSuccessorKey of
-- src/backend/CassandraBackend.cpp, which takes the row of the newest ledger).
use clio_migrator.Prelude.{
  ℕ, ◌≡◌, refl, sym, ap, ◌∙◌, ◌⊎◌, inl, inr, List, [], ◌∷◌, ◌++◌, Option, none, some, Option-cases,
  ltb, ltb→lt, ◌==◌, ==_iff, if◌then◌else◌, Bool-cases, arith, All, subst,
}
use clio_migrator.Types.{last_key}
use clio_migrator.Backend.LedgerWrites.{Insert, insert_successor}
use clio_migrator.Etl.NextLedger.{key_or}
use clio_migrator.Etl.NextLedger.Entries.{Entries}
use clio_migrator.Etl.NextLedger.Neighbors.{Next}

-- What a row says of the key.
abbrev pub successor_of : Insert → ℕ → Option ℕ
successor_of (insert_successor j s n) k = if j == k then some n else none
successor_of _ k = none

abbrev pub newer : Option ℕ → Option ℕ → Option ℕ
newer none old = old
newer (some n) old = some n

-- The newest row of the key in the table, after more rows of the newest ledger.
abbrev pub successor_after : Option ℕ → List Insert → ℕ → Option ℕ
successor_after old [] k = old
successor_after old (i ∷ rows) k = successor_after (newer (successor_of i k) old) rows k

-- A row of successors is one of this ledger, and it tells the key that follows.
abbrev pub IsTrue : Entries → ℕ → Insert → Type 0
IsTrue m seq (insert_successor j s n) =
    (s ≡ seq) × ((next : Option ℕ) × Next m j next × (n ≡ key_or last_key next))
IsTrue m seq _ = Unit {0}

abbrev pub HasRow : ℕ → List Insert → Type 0
HasRow k [] = ⊥
HasRow k (i ∷ rows) = ((n : ℕ) × (successor_of i k ≡ some n)) ⊎ HasRow k rows

pub HasRow-left : (k : ℕ) (xs ys : List Insert) → HasRow k xs → HasRow k (xs ++ ys)
HasRow-left k [] ys h = absurd h
HasRow-left k (x ∷ xs) ys (inl h) = inl h
HasRow-left k (x ∷ xs) ys (inr h) = inr (HasRow-left k xs ys h)

pub HasRow-right : (k : ℕ) (xs ys : List Insert) → HasRow k ys → HasRow k (xs ++ ys)
HasRow-right k [] ys h = h
HasRow-right k (x ∷ xs) ys h = inr (HasRow-right k xs ys h)

pub Next-same : (m : Entries) (k : ℕ) (a b : Option ℕ) → Next m k a → Next m k b → a ≡ b
Next-same m k none none p q = refl
Next-same m k none (some b) p (l, (e, f), h) = let r = sym (p b l) ∙ f in cc
Next-same m k (some a) none (l, (e, f), h) q = let r = sym (q a l) ∙ f in cc
Next-same m k (some a) (some b) (l, (e, f), h) (l', (e', f'), h') = elim (Bool-cases (ltb a b)) [
  | inl x ↦ let r = sym (h' a l (ltb→lt a b x)) ∙ f in cc
  | inr x ↦ elim (Bool-cases (ltb b a)) [
    | inl y ↦ let r = sym (h b l' (ltb→lt b a y)) ∙ f' in cc
    | inr y ↦ let q : a ≡ b = ground (arith, x, y) in ap some q
  ]
]

told :
    (m : Entries) (seq k n : ℕ) (i : Insert) (next : Option ℕ)
    → IsTrue m seq i
    → Next m k next
    → successor_of i k ≡ some n
    → n ≡ key_or last_key next
told m seq k n (insert_successor j s x) next (q, (other, o, e)) h f = elim (Bool-cases (j == k)) [
  | inl y ↦
      let same : j ≡ k = (==_iff j k).0 y in
      let same_x : x ≡ n = ground (arith, y, f) in
      sym same_x
      ∙ e
      ∙ ap (key_or last_key) (Next-same m k other next (subst (λ l. Next m l other) same o) h)
  | inr y ↦ absurd (ground (arith, y, f))
]
told m seq k n _ next t h f = absurd (ground (arith, f))

pub successor_after-Next :
    (m : Entries) (seq k : ℕ) (next : Option ℕ) (rows : List Insert) (old : Option ℕ)
    → All (IsTrue m seq) rows
    → Next m k next
    → HasRow k rows ⊎ (old ≡ some (key_or last_key next))
    → successor_after old rows k ≡ some (key_or last_key next)
successor_after-Next m seq k next [] old t h (inl r) = absurd r
successor_after-Next m seq k next [] old t h (inr e) = e
successor_after-Next m seq k next (i ∷ rows) old (t, ts) h r =
    elim (Option-cases (successor_of i k)) [
      | inl e ↦ rw e (
          successor_after-Next m seq k next rows old ts h (elim r [
            | inl (inl (n, f)) ↦ absurd (let q = sym e ∙ f in cc)
            | inl (inr g) ↦ inl g
            | inr g ↦ inr g
          ]))
      | inr (n, e) ↦ rw e (
          successor_after-Next m seq k next rows (some n) ts h
            (inr (ap some (told m seq k n i next t h e))))
    ]
