-- ===== src/Etl/NextLedger/Loops.antt =====
-- What the loops over the neighbours and the bases of books send (buildNextLedger of
-- src/etl/ReportingETL.cpp).
use clio_migrator.Prelude.{
  ℕ, ◌<◌, ◌≡◌, refl, sym, ap, ◌∙◌, inl, inr, List, [], ◌∷◌, ◌++◌, append_assoc, append-nil, true,
  false, Option, none, some, ◌==◌, ==_iff, if◌then◌else◌, arith, All, All-append, subst, if_cases,
}
use clio_migrator.Types.{LedgerObject, is_empty, last_key}
use clio_migrator.Outcome.{returns}
use clio_migrator.Cache.{SimpleCache, contains, get_successor, get_predecessor}
use clio_migrator.Cache.Sorted.{find}
use clio_migrator.Cache.Invariant.{
  IsValid, IsPredecessor, neighbours_exact, step-IsValid, step, successors,
}
use clio_migrator.Backend.LedgerWrites.{Insert, insert_successor, write_successor}
use clio_migrator.Etl.NextLedger.{
  Node, N, and_then, ◌>>=◌, ◌>>◌, pure, send, with_cache, key_of, key_or, own_neighbor_rows,
  neighbor_loop, base_loop,
}
use clio_migrator.Etl.NextLedger.Entries.{Entries, Live, MemO, IsFinal}
use clio_migrator.Etl.NextLedger.Neighbors.{
  Next, Starts, Next-IsSuccessor, lower, lower_key, Next-over, Next-lower,
}
use clio_migrator.Etl.NextLedger.Rows.{IsTrue, HasRow, HasRow-left, HasRow-right}

-- The cache holds these entries in full, and its newest ledger is this one.
pub record IsReady (m : Entries) (seq : ℕ) (c : SimpleCache) : Type 0 where
  pub valid : IsValid c
  pub full : c.full ≡ true
  pub latest : c.latest_seq ≡ seq
  pub holds : c.entries ≡ m
  pub enabled : c.disabled ≡ false

pub IsReady-successor :
    (m : Entries) (seq key at : ℕ) (c : SimpleCache)
    → IsReady m seq c
    → IsReady m seq (get_successor key at c).1
unfolding get_successor step
IsReady-successor m seq key at c h = record {
  valid = step-IsValid c (successors key at) h.valid;
  full = ground (arith, h.full);
  latest = ground (arith, h.latest);
  holds = ground (arith, h.holds);
  enabled = ground (arith, h.enabled);
}

-- Where an object changes what follows a key, there is a row for that key.
abbrev pub Covers : Entries → LedgerObject → List Insert → Type 0
Covers m o rows =
    ((k : ℕ)
      → Starts m k
      → k < o.key
      → ((i : ℕ) → k < i → i < o.key → find i m ≡ none)
      → HasRow k rows)
    × (is_empty o.blob ≡ false → HasRow o.key rows)

self_row : (k : ℕ) → (k == k) ≡ true
self_row k = ground arith

row_of_key :
    (j k seq n : ℕ) (rows : List Insert) → j ≡ k → HasRow k (insert_successor j seq n ∷ rows)
row_of_key j k seq n rows e = inl (n, rw ((==_iff j k).1 e) refl)

module _ (seq : ℕ) (c : SimpleCache) (o : LedgerObject) (lb ub : Option LedgerObject)
    (pos : 0 < o.key) (p : IsPredecessor o.key c lb) (n : Next c.entries o.key (key_of ub)) where
  abbrev Right : List Insert → Type 0
  Right rows = All (IsTrue c.entries seq) rows × Covers c.entries o rows

  deleted_rows :
      is_empty o.blob ≡ true
      → find o.key c.entries ≡ none
      → Right (write_successor (lower lb) seq (key_or last_key (key_of ub)))
  unfolding write_successor
  deleted_rows e gone = (
    ((refl, (key_of ub, Next-over c o.key lb (key_of ub) pos p n gone, refl)), tt),
    (
      (λ k st l b. row_of_key (lower lb) k seq _ [] (lower_key c k o.key lb p st l b)),
      (λ f. let q = sym e ∙ f in cc),
    ),
  )

  added_rows :
      Live c.entries o.key
      → Right (
          write_successor (lower lb) seq o.key
          ++ write_successor o.key seq (key_or last_key (key_of ub)))
  unfolding write_successor
  added_rows there = (
    (
      (refl, (some o.key, Next-lower c o.key lb pos p there, refl)),
      ((refl, (key_of ub, n, refl)), tt),
    ),
    (
      (λ k st l b.
          row_of_key (lower lb) k seq o.key
            (write_successor o.key seq (key_or last_key (key_of ub)))
            (lower_key c k o.key lb p st l b)),
      (λ f. inr (row_of_key o.key o.key seq _ [] refl)),
    ),
  )

  gone_of : IsFinal c.entries o → is_empty o.blob ≡ true → find o.key c.entries ≡ none
  gone_of (inl (e, gone)) f = gone
  gone_of (inr (e, there)) f = let q = sym e ∙ f in cc

  there_of : IsFinal c.entries o → is_empty o.blob ≡ false → Live c.entries o.key
  there_of (inl (e, gone)) f = let q = sym e ∙ f in cc
  there_of (inr (e, there)) f = there

  own_rows : IsFinal c.entries o → Right (own_neighbor_rows seq o lb ub)
  own_rows f =
      if_cases Right (is_empty o.blob) (λ e. deleted_rows e (gone_of f e))
        (λ e. added_rows (there_of f e))

module _ (m : Entries) (seq : ℕ) where
  pub found_successor :
      (key : ℕ) (c : SimpleCache)
      → IsReady m seq c
      → Next m key (key_of (get_successor key seq c).0)
  found_successor key c h =
      subst (λ e. Next e key (key_of (get_successor key seq c).0)) h.holds
        (subst (λ s. Next c.entries key (key_of (get_successor key s c).0)) h.latest
          (Next-IsSuccessor key c (get_successor key c.latest_seq c).0
            (neighbours_exact key c h.valid h.full).0))

  found-IsPredecessor :
      (key : ℕ) (c : SimpleCache)
      → IsReady m seq c
      → IsPredecessor key c (get_predecessor key seq c)
  found-IsPredecessor key c h =
      subst (λ s. IsPredecessor key c (get_predecessor key s c)) h.latest
        (neighbours_exact key c h.valid h.full).1

  -- What a part of the program sends: rows that are true, and so that `K` holds of them.
  unfoldable pub Emits : Node → N (Unit {0}) → (List Insert → Type 0) → Type 0
  Emits n run K =
      (rows : List Insert) × ((run n).0 ≡ returns tt)
      × IsReady m seq (run n).1.cache
      × ((run n).1.range ≡ n.range)
      × ((run n).1.sent ≡ n.sent ++ rows)
      × All (IsTrue m seq) rows
      × K rows

  Emits-nothing :
      (n : Node) (K : List Insert → Type 0) → IsReady m seq n.cache → K [] → Emits n (pure tt) K
  unfolding Emits
  Emits-nothing n K h k = ([], refl, h, refl, sym (append-nil n.sent), tt, k)

  then_eq :
      (run rest : N (Unit {0})) (n : Node)
      → (run n).0 ≡ returns tt
      → (run >> rest) n ≡ rest (run n).1
  then_eq run rest n e = ap (λ o. and_then (o, (run n).1) (λ _. rest)) e

  pub Emits-then :
      (n : Node) (run rest : N (Unit {0})) (K L P : List Insert → Type 0)
      → Emits n run K
      → (IsReady m seq (run n).1.cache → Emits (run n).1 rest L)
      → ((xs ys : List Insert) → K xs → L ys → P (xs ++ ys))
      → Emits n (run >> rest) P
  unfolding Emits
  Emits-then n run rest K L P (xs, e, h, g, s, t, k) f join =
      let (ys, e', h', g', s', t', l) = f h in
      let q = then_eq run rest n e in
      (
        xs ++ ys,
        ap (λ x. x.0) q ∙ e',
        subst (λ x. IsReady m seq x.1.cache) (sym q) h',
        ap (λ x. x.1.range) q ∙ g' ∙ g,
        ap (λ x. x.1.sent) q ∙ s' ∙ ap (λ l. l ++ ys) s ∙ append_assoc n.sent xs ys,
        All-append (IsTrue m seq) xs ys t t',
        join xs ys k l,
      )

  abbrev one_object : List ℕ → LedgerObject → N (Unit {0})
  one_object skipped obj =
      if contains skipped obj.key
      then pure tt
      else (with_cache (λ c. (get_predecessor obj.key seq c, c)) >>= λ lb.
          with_cache (get_successor obj.key seq) >>= λ ub. send (own_neighbor_rows seq obj lb ub))

  -- The objects that are not skipped are covered.
  abbrev pub CoversAll : List ℕ → List LedgerObject → List Insert → Type 0
  CoversAll skipped objs rows =
      (o : LedgerObject) → MemO o objs → contains skipped o.key ≡ false → Covers m o rows

  Emits-one :
      (skipped : List ℕ) (obj : LedgerObject) (n : Node)
      → IsReady m seq n.cache
      → IsFinal m obj
      → 0 < obj.key
      → Emits n (one_object skipped obj) (CoversAll skipped (obj ∷ []))
  unfolding Emits
  Emits-one skipped obj n h final pos =
      if_cases (λ run. Emits n run (CoversAll skipped (obj ∷ []))) (contains skipped obj.key)
        (λ e. Emits-nothing n (CoversAll skipped (obj ∷ [])) h λ o mem f. elim mem [
          | inl q ↦
              absurd (let z = sym f ∙ ap (λ x. contains skipped (LedgerObject.key x)) q ∙ e in cc)
          | inr x ↦ absurd x
        ])
        λ e.
          let lb = get_predecessor obj.key seq n.cache in
          let ub = (get_successor obj.key seq n.cache).0 in
          let (t, k) =
            subst
              (λ x.
                All (IsTrue x seq) (own_neighbor_rows seq obj lb ub)
                × Covers x obj (own_neighbor_rows seq obj lb ub))
              h.holds
              (own_rows seq n.cache obj lb ub pos (found-IsPredecessor obj.key n.cache h)
                (subst (λ x. Next x obj.key (key_of ub)) (sym h.holds)
                  (found_successor obj.key n.cache h))
                (subst (λ x. IsFinal x obj) (sym h.holds) final)) in
          (
            own_neighbor_rows seq obj lb ub,
            refl,
            IsReady-successor m seq obj.key seq n.cache h,
            refl,
            refl,
            t,
            λ o mem f. elim mem [
              | inl q ↦ subst (λ x. Covers m x (own_neighbor_rows seq obj lb ub)) (sym q) k
              | inr x ↦ absurd x
            ],
          )

  pub Covers-left : (o : LedgerObject) (xs ys : List Insert) → Covers m o xs → Covers m o (xs ++ ys)
  Covers-left o xs ys (f, g) =
      ((λ k st l b. HasRow-left k xs ys (f k st l b)), (λ e. HasRow-left o.key xs ys (g e)))

  Covers-right : (o : LedgerObject) (xs ys : List Insert) → Covers m o ys → Covers m o (xs ++ ys)
  Covers-right o xs ys (f, g) =
      ((λ k st l b. HasRow-right k xs ys (f k st l b)), (λ e. HasRow-right o.key xs ys (g e)))

  pub Emits-neighbors :
      (skipped : List ℕ) (objs : List LedgerObject) (n : Node)
      → IsReady m seq n.cache
      → All (IsFinal m) objs
      → All (λ (o : LedgerObject). 0 < o.key) objs
      → Emits n (neighbor_loop seq skipped objs) (CoversAll skipped objs)
  unfolding neighbor_loop
  Emits-neighbors skipped [] n h f p =
      Emits-nothing n (CoversAll skipped []) h (λ o mem e. absurd mem)
  Emits-neighbors skipped (obj ∷ objs) n h (f, fs) (p, ps) =
      Emits-then n (one_object skipped obj) (neighbor_loop seq skipped objs)
        (CoversAll skipped (obj ∷ [])) (CoversAll skipped objs) (CoversAll skipped (obj ∷ objs))
        (Emits-one skipped obj n h f p)
        (λ ready. Emits-neighbors skipped objs (one_object skipped obj n).1 ready fs ps)
        λ xs ys k l o mem e. elim mem [
          | inl q ↦ Covers-left o xs ys (k o (inl q) e)
          | inr y ↦ Covers-right o xs ys (l o y e)
        ]

  pub Emits-bases :
      (bases : List ℕ) (n : Node)
      → IsReady m seq n.cache
      → Emits n (base_loop seq bases) (λ rows. Unit {0})
  unfolding base_loop Emits write_successor
  Emits-bases [] n h = Emits-nothing n (λ rows. Unit {0}) h tt
  Emits-bases (base ∷ bases) n h =
      Emits-then n
        (with_cache (get_successor base seq) >>= λ succ.
          send (write_successor base seq (key_or last_key (key_of succ))))
        (base_loop seq bases) (λ rows. Unit {0}) (λ rows. Unit {0}) (λ rows. Unit {0}) (one n h)
        (λ ready. Emits-bases bases _ ready) (λ xs ys k l. tt)
    where
      one :
          (n : Node)
          → IsReady m seq n.cache
          → Emits n
              (with_cache (get_successor base seq) >>= λ succ.
                send (write_successor base seq (key_or last_key (key_of succ))))
              (λ rows. Unit {0})
      one n h =
          let ub = (get_successor base seq n.cache).0 in
          (
            write_successor base seq (key_or last_key (key_of ub)),
            refl,
            IsReady-successor m seq base seq n.cache h,
            refl,
            refl,
            ((refl, (key_of ub, found_successor base n.cache h, refl)), tt),
            tt,
          )
