-- ===== src/Etl/NextLedger/Changes.antt =====
-- Wherever the objects of a ledger change what follows a key, they have a row for it
-- (buildNextLedger of src/etl/ReportingETL.cpp).
use clio_migrator.Prelude.{
  ℕ, ◌<◌, ◌≡◌, refl, sym, ap, ◌∙◌, ◌⊎◌, inl, inr, List, [], ◌∷◌, true, false, Option, none, some,
  Option-cases, Bool-cases, ltb, ltb→lt, ◌==◌, ==_iff, arith, All, subst,
}
use clio_migrator.Types.{LedgerObject, is_empty, last_key}
use clio_migrator.Cache.{contains}
use clio_migrator.Cache.Sorted.{find, From}
use clio_migrator.Backend.LedgerWrites.{Insert}
use clio_migrator.Etl.NextLedger.{RawObject, is_modified, cache_updates, modified_keys, key_or}
use clio_migrator.Etl.NextLedger.Entries.{Entries, Live, Fresh, MemO, search_key, IsFinal}
use clio_migrator.Etl.NextLedger.Neighbors.{Next, Starts, Next-found}
use clio_migrator.Etl.NextLedger.Rows.{HasRow}
use clio_migrator.Etl.NextLedger.Loops.{Covers, CoversAll}

All-at :
    (P : LedgerObject → Type 0) (objs : List LedgerObject) (o : LedgerObject)
    → All P objs
    → MemO o objs
    → P o
All-at P [] o h m = absurd m
All-at P (x ∷ xs) o (h, hs) (inl e) = subst P (sym e) h
All-at P (x ∷ xs) o (h, hs) (inr m) = All-at P xs o hs m

-- The keys that are in one of the two, and not in the other.
abbrev Changed : Entries → Entries → ℕ → Type 0
Changed old new k = ((find k old ≡ none) × Live new k) ⊎ (Live old k × (find k new ≡ none))

-- Between the two, either the same key follows, or there is a change before the nearer one.
compare :
    (old new : Entries) (k : ℕ) (a b : Option ℕ)
    → Next old k a
    → Next new k b
    → (a ≡ b)
      ⊎ ((m : ℕ) × Changed old new m × (k < m) × ((i : ℕ) → k < i → i < m → find i new ≡ none))
compare old new k none none p q = inl refl
compare old new k none (some b) p (l, there, h) = inr (b, inl (p b l, there), l, h)
compare old new k (some a) none (l, there, h) q = inr (a, inr (there, q a l), l, λ i x y. q i x)
compare old new k (some a) (some b) (l, there, h) (l', there', h') = elim (Bool-cases (ltb a b)) [
  | inl e ↦
      let less : a < b = ltb→lt a b e in
      inr (a, inr (there, h' a l less), l, λ i x y. h' i x (omega (arith, y, less)))
  | inr e ↦ elim (Bool-cases (ltb b a)) [
    | inl f ↦ inr (b, inl (h b l' (ltb→lt b a f), there'), l', h')
    | inr f ↦ let q : a ≡ b = ground (arith, e, f) in inl (ap some q)
  ]
]

-- An object that is modified was there and is there.
abbrev pub StaysThere : Entries → RawObject → Type 0
StaysThere old o = is_modified o.mod_type ≡ true → Live old o.key × (is_empty o.blob ≡ false)

module _ (old new : Entries) where
  Live-after : (o : LedgerObject) → IsFinal new o → is_empty o.blob ≡ false → Live new o.key
  Live-after o (inl (e, gone)) f = let q = sym e ∙ f in cc
  Live-after o (inr (e, there)) f = there

  skipped_stays :
      (k : ℕ) (objs : List RawObject)
      → All (StaysThere old) objs
      → All (IsFinal new) (cache_updates objs)
      → contains (modified_keys objs) k ≡ true
      → Live old k × Live new k
  skipped_stays k [] s f e = absurd (let q = e in cc)
  skipped_stays k (o ∷ objs) (s, ss) (f, fs) e = elim (Bool-cases (is_modified o.mod_type)) [
    | inl t ↦ elim (Bool-cases (o.key == k)) [
      | inl q ↦
          let same : o.key ≡ k = (==_iff o.key k).0 q in
          let (was, full) = s t in
          (
            subst (Live old) same was,
            subst (Live new) same (Live-after (record { key = o.key; blob = o.blob }) f full),
          )
      | inr q ↦ skipped_stays k objs ss fs (ground (arith, e, t, q))
    ]
    | inr t ↦ skipped_stays k objs ss fs (ground (arith, e, t))
  ]

  absent : (m : Entries) (k : ℕ) → Live m k → find k m ≡ none → ⊥
  absent m k (e, h) q = let p = sym h ∙ q in cc

  module _ (objs : List RawObject) (stays : All (StaysThere old) objs)
      (final : All (IsFinal new) (cache_updates objs))
      (kept : (k : ℕ) → Fresh k (cache_updates objs) → find k new ≡ find k old) where
    not_kept : (k : ℕ) → Changed old new k → Fresh k (cache_updates objs) → ⊥
    not_kept k (inl (gone, there)) f = absent new k there (kept k f ∙ gone)
    not_kept k (inr (there, gone)) f = absent old k there (sym (kept k f) ∙ gone)

    not_skipped : (k : ℕ) → Changed old new k → contains (modified_keys objs) k ≡ false
    not_skipped k c = elim (Bool-cases (contains (modified_keys objs) k)) [
      | inr e ↦ e
      | inl e ↦
          let (was, is) = skipped_stays k objs stays final e in
          absurd (elim c [
            | inl (gone, there) ↦ absent old k was gone
            | inr (there, gone) ↦ absent new k is gone
          ])
    ]

    module _ (seq : ℕ) (rows : List Insert)
        (covers : CoversAll new seq (modified_keys objs) (cache_updates objs) rows) where
      -- A change has its object, with its rows.
      Changed-Covers :
          (k : ℕ)
          → Changed old new k
          → (o : LedgerObject) × (o.key ≡ k) × Covers new o rows × IsFinal new o
      Changed-Covers k c = elim (search_key k (cache_updates objs)) [
        | inl f ↦ absurd (not_kept k c f)
        | inr (o, mem, e) ↦ (
          o,
          e,
          covers o mem (ap (contains (modified_keys objs)) e ∙ not_skipped k c),
          All-at (IsFinal new) (cache_updates objs) o final mem,
        )
      ]

      added_row : (k : ℕ) → find k old ≡ none → Live new k → HasRow k rows
      added_row k gone there =
          let (o, e, (f, g), fin) = Changed-Covers k (inl (gone, there)) in
          subst (λ x. HasRow x rows) e
            (g (elim fin [
              | inl (b, lost) ↦ absurd (absent new k there (ap (λ x. find x new) (sym e) ∙ lost))
              | inr (b, is) ↦ b
            ]))

      before_row :
          (k m : ℕ)
          → Changed old new m
          → Starts new k
          → k < m
          → ((i : ℕ) → k < i → i < m → find i new ≡ none)
          → HasRow k rows
      before_row k m c st l b =
          let (o, e, (f, g), fin) = Changed-Covers m c in
          f k st (subst (λ x. k < x) (sym e) l) (λ i x y. b i x (subst (λ z. i < z) e y))

      Starts-before : (k : ℕ) → Starts new k → Starts old k ⊎ HasRow k rows
      Starts-before k (inl e) = inl (inl e)
      Starts-before k (inr there) = elim (Option-cases (find k old)) [
        | inl gone ↦ inr (added_row k gone there)
        | inr (e, was) ↦ inl (inr (e, was))
      ]

      -- A table that was right needs no more rows than these.
      pub row_or_same :
          (table : ℕ → Option ℕ)
          → From 0 old
          → ((k : ℕ) (next : Option ℕ)
              → Starts old k
              → Next old k next
              → table k ≡ some (key_or last_key next))
          → (k : ℕ) (next : Option ℕ) → Starts new k
          → Next new k next
          → HasRow k rows ⊎ (table k ≡ some (key_or last_key next))
      row_or_same table ordered right k next st h = elim (Starts-before k st) [
        | inr r ↦ inl r
        | inl was ↦
            let (a, p) = Next-found k old ordered in
            elim (compare old new k a next p h) [
              | inl e ↦ inr (right k a was p ∙ ap (λ x. some (key_or last_key x)) e)
              | inr (m, c, l, b) ↦ inl (before_row k m c st l b)
            ]
      ]
