-- ===== src/Etl/NextLedger/Entries.antt =====
-- What the cache holds after the objects of a ledger (SimpleCache::update of
-- src/backend/SimpleCache.cpp, as buildNextLedger of src/etl/ReportingETL.cpp calls it).
use clio_migrator.Prelude.{
  ℕ, ◌<◌, ◌≤◌, subst, if◌then◌else◌, ◌≡◌, refl, sym, ap, ◌∙◌, ◌⊎◌, inl, inr, List, [], ◌∷◌, true,
  false, none, some, Bool-cases, ==_iff, ◌==◌, arith, All,
}
use clio_migrator.Types.{LedgerObject, is_empty}
use clio_migrator.Cache.{
  CacheEntry, SimpleCache, update_object, update_objects, update, advance, newest,
}
use clio_migrator.Cache.Sorted.{find, find-put, find-erase}
use clio_migrator.Cache.Invariant.{
  IsValid, advance-IsValid, update_objects-IsValid, update_object-IsValid, update_object-latest_seq,
}

abbrev pub Entries : Type 0
Entries = List (ℕ × CacheEntry)

abbrev pub Live : Entries → ℕ → Type 0
Live m k = (e : CacheEntry) × (find k m ≡ some e)

abbrev pub Fresh : ℕ → List LedgerObject → Type 0
Fresh k objs = All (λ (o : LedgerObject). (o.key == k) ≡ false) objs

-- No key stands twice.
abbrev pub Distinct : List LedgerObject → Type 0
Distinct [] = Unit {0}
Distinct (o ∷ objs) = Fresh o.key objs × Distinct objs

abbrev pub MemO : LedgerObject → List LedgerObject → Type 0
MemO o [] = ⊥
MemO o (x ∷ xs) = (o ≡ x) ⊎ MemO o xs

pub search_key :
    (k : ℕ) (objs : List LedgerObject)
    → Fresh k objs ⊎ ((o : LedgerObject) × MemO o objs × (o.key ≡ k))
search_key k [] = inl tt
search_key k (x ∷ xs) = elim (Bool-cases (x.key == k)) [
  | inl e ↦ inr (x, inl refl, (==_iff x.key k).0 e)
  | inr e ↦ elim (search_key k xs) [ inl f ↦ inl (e, f) | inr (o, m, q) ↦ inr (o, inr m, q) ]
]

-- What an object leaves in the cache.
abbrev pub IsFinal : Entries → LedgerObject → Type 0
IsFinal m o =
    ((is_empty o.blob ≡ true) × (find o.key m ≡ none)) ⊎ ((is_empty o.blob ≡ false) × Live m o.key)

find-update_object :
    (seq k : ℕ) (c : SimpleCache) (o : LedgerObject)
    → IsValid c
    → (o.key == k) ≡ false
    → find k (update_object seq false c o).entries ≡ find k c.entries
unfolding update_object
find-update_object seq k c o v f = ground (
  arith,
  f,
  find-erase 0 o.key k c.entries v.ordered,
  find-put o.key k (newest seq o c) c.entries,
)

update_object-IsFinal :
    (seq : ℕ) (c : SimpleCache) (o : LedgerObject)
    → IsValid c
    → IsFinal (update_object seq false c o).entries o
unfolding update_object
update_object-IsFinal seq c o v = elim (Bool-cases (is_empty o.blob)) [
  | inl e ↦ inl (e, ground (arith, e, find-erase 0 o.key o.key c.entries v.ordered))
  | inr e ↦
      inr (e, (newest seq o c, ground (arith, e, find-put o.key o.key (newest seq o c) c.entries)))
]

module _ (seq : ℕ) where
  find-update_objects :
      (k : ℕ) (c : SimpleCache) (objs : List LedgerObject)
      → IsValid c
      → seq ≤ c.latest_seq
      → Fresh k objs
      → find k (update_objects seq false c objs).entries ≡ find k c.entries
  unfolding update_objects
  find-update_objects k c [] v l f = refl
  find-update_objects k c (o ∷ objs) v l (f, fs) =
      find-update_objects k (update_object seq false c o) objs
        (update_object-IsValid seq false c o l v)
        (omega (arith, l, update_object-latest_seq seq false c o)) fs
      ∙ find-update_object seq k c o v f

  IsFinal-eq :
      (m n : Entries) (o : LedgerObject) → find o.key n ≡ find o.key m → IsFinal m o → IsFinal n o
  IsFinal-eq m n o e (inl (b, f)) = inl (b, e ∙ f)
  IsFinal-eq m n o e (inr (b, (x, f))) = inr (b, (x, e ∙ f))

  update_objects-IsFinal :
      (c : SimpleCache) (objs : List LedgerObject)
      → IsValid c
      → seq ≤ c.latest_seq
      → Distinct objs
      → All (IsFinal (update_objects seq false c objs).entries) objs
  unfolding update_objects
  update_objects-IsFinal c [] v l d = tt
  update_objects-IsFinal c (o ∷ objs) v l (f, d) =
      let v' = update_object-IsValid seq false c o l v in
      let l' : seq ≤ (update_object seq false c o).latest_seq =
        omega (arith, l, update_object-latest_seq seq false c o) in
      let c' = update_object seq false c o in
      (
        IsFinal-eq c'.entries (update_objects seq false c' objs).entries o
            (find-update_objects o.key c' objs v' l' f) (update_object-IsFinal seq c o v),
        update_objects-IsFinal c' objs v' l' d,
      )

update_objects-flags :
    (seq : ℕ) (c : SimpleCache) (objs : List LedgerObject)
    → ((update_objects seq false c objs).full ≡ c.full)
      × ((update_objects seq false c objs).latest_seq ≡ c.latest_seq)
      × ((update_objects seq false c objs).disabled ≡ c.disabled)
unfolding update_objects update_object
update_objects-flags seq c [] = (refl, refl, refl)
update_objects-flags seq c (o ∷ objs) =
    let (a, b, d) = update_objects-flags seq (update_object seq false c o) objs in
    (a ∙ ground arith, b ∙ ground arith, d ∙ ground arith)

-- The cache after the update, where it was enabled and behind.
pub record Updated (seq : ℕ) (objs : List LedgerObject) (c d : SimpleCache) : Type 0 where
  pub valid : IsValid d
  pub full : d.full ≡ c.full
  pub latest : d.latest_seq ≡ seq
  pub enabled : d.disabled ≡ false
  pub kept : (k : ℕ) → Fresh k objs → find k d.entries ≡ find k c.entries
  pub final : All (IsFinal d.entries) objs

pub update-Updated :
    (seq : ℕ) (objs : List LedgerObject) (c : SimpleCache)
    → IsValid c
    → c.disabled ≡ false
    → c.latest_seq < seq
    → Distinct objs
    → Updated seq objs c (update objs seq false c)
unfolding update advance
update-Updated seq objs c v e l d =
    subst (Updated seq objs c)
      (sym (ap (λ b. if b then c else update_objects seq false (advance seq c) objs) e))
      (let v' = advance-IsValid seq c v in
        let a : (advance seq c).latest_seq ≡ seq = ground (arith, l) in
        let at : seq ≤ (advance seq c).latest_seq = omega (arith, a) in
        let (f, g, h) = update_objects-flags seq (advance seq c) objs in
        record {
          valid = update_objects-IsValid seq false (advance seq c) objs at v';
          full = f;
          latest = g ∙ a;
          enabled = h ∙ e;
          kept = λ k w. find-update_objects seq k (advance seq c) objs v' at w;
          final = update_objects-IsFinal seq (advance seq c) objs v' at d;
        })
