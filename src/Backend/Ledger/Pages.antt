-- ===== src/Backend/Ledger/Pages.antt =====
-- A page of a ledger that the database holds (fetchLedgerPage of
-- src/backend/BackendInterface.cpp).
use clio_migrator.Prelude.{
  ℕ, zero, suc, ◌≡◌, refl, sym, ap, subst, ◌∙◌, List, [], ◌∷◌, Bool, true, false, Option, none,
  some, ltb, map, take, length, arith, if_cases, All, All-each, All-weaken, All-take,
}
use clio_migrator.Types.{Blob, LedgerPage, is_empty}
use clio_migrator.Outcome.{returns}
use clio_migrator.Cache.{SimpleCache, get_successor, get}
use clio_migrator.Cache.Sorted.{find}
use clio_migrator.Database.{
  Cassandra, M, ◌>>=◌, pure, lift, with_cache, ask, ask_outcome, traverse_m, row,
}
use clio_migrator.Backend.Serves.{
  Serves, Serves-bind, Serves-pure, Serves-ask_outcome, Serves-ask, Serves-traverse,
}
use clio_migrator.Backend.Reads.{
  not_last, do_fetch_successor_key, fetch_successor_key, successor_or, fetch_ledger_objects,
  fetch_missing, do_fetch_ledger_objects, collect, fill, misses, blob_or_empty, has_failed, row_or,
}
use clio_migrator.Backend.Page.{
  page_keys, keys_from, page_of, page_objects, page_cursor, fetch_ledger_page, start_of,
}
use clio_migrator.Backend.Ledger.{
  HoldsLedger, HasEmptyCache, HasEmptyCache-tick, objects_of, or_last,
}
use clio_migrator.Backend.Ledger.Keys.{
  head?, At, At-next, get_successor-none, At-successor, not_last-head, At-All, At-behind_All,
}

get-none :
    (key seq : ℕ) (c : SimpleCache)
    → c.entries ≡ []
    → ((get key seq c).0 ≡ none)
      × ((get key seq c).1.entries ≡ [])
      × ((get key seq c).1.full ≡ c.full)
unfolding get find
get-none key seq c h =
    let nothing : find key c.entries ≡ none = ap (find key) h in
    if_cases
      (λ (x : Option Blob × SimpleCache). (x.0 ≡ none) × (x.1.entries ≡ []) × (x.1.full ≡ c.full))
      (ltb c.latest_seq seq) (λ e. (refl, h, refl)) (λ e. rw nothing (refl, h, refl))

module _ (db : Cassandra) (seq : ℕ) (ks : List ℕ) (blob : ℕ → Blob)
    (holds : HoldsLedger db seq ks blob) where
  abbrev Gives : {A : Type 0} → M A → A → Type 0
  Gives m a = Serves HasEmptyCache m a

  Serves-successor :
      (c : ℕ) (ys : List ℕ) → At ks c ys → Gives (fetch_successor_key db c seq) (head? ys)
  unfolding fetch_successor_key do_fetch_successor_key
  Serves-successor c ys a =
      Serves-bind HasEmptyCache (with_cache (get_successor c seq))
        (successor_or db (do_fetch_successor_key db c seq)) none (head? ys)
        (λ w h. (
          w,
          ap (λ p. (returns p.0, record w { cache = p.1 }))
              (get_successor-none c seq w.cache h.not_full),
          h,
        ))
        (Serves-bind HasEmptyCache (ask_outcome (λ t. db.select_successor t c seq))
          (λ next. pure (not_last db next)) (some (or_last (head? ys))) (head? ys)
          (Serves-ask_outcome HasEmptyCache HasEmptyCache-tick _ (some (or_last (head? ys))) (λ t.
            (At-All _ ks c ys a holds.successors).0 t
            ∙ ap (λ o. returns (some (or_last o))) (At-successor ks holds.ascending c ys a)))
          (λ w h. (w, ap (λ o. (returns o, w)) (not_last-head ks holds.ascending c ys a db), h)))

  abbrev found : List ℕ → Bool → List ℕ × Bool
  found keys reached_end = (keys, reached_end)

  -- The keys of a page, and whether the walk has come to the end.
  abbrev is_short : ℕ → List ℕ → Bool
  is_short n ys = ltb (length ys) n

  none_short : (ys : List ℕ) → false ≡ is_short 0 ys
  none_short ys = ground arith

  end_short : (n : ℕ) → true ≡ is_short (suc n) []
  end_short n = ground arith

  short_suc : (n y : ℕ) (ys : List ℕ) → is_short n ys ≡ is_short (suc n) (y ∷ ys)
  short_suc n y ys = ground arith

  Serves-page_keys :
      (n c : ℕ) (ys : List ℕ) → At ks c ys → Gives (page_keys db n c seq) (take n ys, is_short n ys)
  unfolding page_keys
  Serves-page_keys zero c ys a =
      subst (λ b. Gives (pure (found [] false)) (found [] b)) (none_short ys)
        (Serves-pure HasEmptyCache (found [] false))
  Serves-page_keys (suc n) c [] a =
      subst (λ b. Gives (page_keys db (suc n) c seq) (found [] b)) (end_short n)
        (Serves-bind HasEmptyCache (fetch_successor_key db c seq)
          (keys_from (λ k. page_keys db n k seq)) none (found [] true) (Serves-successor c [] a)
          (Serves-pure HasEmptyCache (found [] true)))
  Serves-page_keys (suc n) c (y ∷ ys) a =
      Serves-bind HasEmptyCache (fetch_successor_key db c seq) _ (some y)
        (y ∷ take n ys, is_short (suc n) (y ∷ ys)) (Serves-successor c (y ∷ ys) a)
        (Serves-bind HasEmptyCache (page_keys db n y seq) (λ found. pure (y ∷ found.0, found.1))
          (take n ys, is_short n ys) (y ∷ take n ys, is_short (suc n) (y ∷ ys))
          (Serves-page_keys n y ys (At-next ks c y ys a))
          (subst
            (λ b. Gives (pure (found (y ∷ take n ys) (is_short n ys))) (found (y ∷ take n ys) b))
            (short_suc n y ys) (Serves-pure HasEmptyCache (found (y ∷ take n ys) (is_short n ys)))))

  hits_none :
      (keys : List ℕ)
      → Gives (traverse_m (λ key. with_cache (get key seq)) keys) (map (λ k. none) keys)
  hits_none keys =
      Serves-traverse HasEmptyCache (λ key. with_cache (get key seq)) (λ k. none) keys
        (All-each _ keys (λ k w h.
          let (e, f, g) = get-none k seq w.cache h.no_entries in
          (
            record w { cache = (get k seq w.cache).1 },
            ap (λ o. (returns o, record w { cache = (get k seq w.cache).1 })) e,
            record { no_entries = f; not_full = g ∙ h.not_full },
          )))

  all_missed : (keys : List ℕ) → misses keys (map (λ k. none) keys) ≡ keys
  all_missed [] = refl
  all_missed (k ∷ keys) = ap (◌∷◌ k) (all_missed keys)

  collect_blobs :
      (keys : List ℕ)
      → (has_failed (map (λ k. row (blob k)) keys) ≡ false)
        × (map (row_or []) (map (λ k. row (blob k)) keys) ≡ map blob keys)
  collect_blobs [] = (refl, refl)
  collect_blobs (k ∷ keys) = ((collect_blobs keys).0, ap (◌∷◌ (blob k)) (collect_blobs keys).1)

  collected : (keys : List ℕ) → collect [] (map (λ k. row (blob k)) keys) ≡ returns (map blob keys)
  unfolding collect
  collected keys = let (e, q) = collect_blobs keys in rw e (ap returns q)

  filled_in :
      (keys : List ℕ)
      → fill (map blob_or_empty (map (λ k. none) keys)) (map blob keys) ≡ returns (map blob keys)
  unfolding fill
  filled_in [] = refl
  filled_in (k ∷ keys) = rw (filled_in keys) refl

  abbrev IsRow : ℕ → Type 0
  IsRow k = (t : ℕ) → db.select_object_async t k seq ≡ row (blob k)

  Serves-objects :
      (keys : List ℕ)
      → All IsRow keys
      → Gives (fetch_missing db keys seq (map blob_or_empty (map (λ k. none) keys))) (map blob keys)
  unfolding fetch_missing do_fetch_ledger_objects
  Serves-objects [] there = Serves-pure HasEmptyCache []
  Serves-objects (k ∷ keys) there =
      Serves-bind HasEmptyCache
        (traverse_m (λ key. ask (λ t. db.select_object_async t key seq)) (k ∷ keys) >>= λ answers.
          lift (collect [] answers))
        (λ objs. lift (fill (map blob_or_empty (map (λ j. none) (k ∷ keys))) objs))
        (map blob (k ∷ keys)) (map blob (k ∷ keys))
        (Serves-bind HasEmptyCache
          (traverse_m (λ key. ask (λ t. db.select_object_async t key seq)) (k ∷ keys))
          (λ answers. lift (collect [] answers)) (map (λ j. row (blob j)) (k ∷ keys))
          (map blob (k ∷ keys))
          (Serves-traverse HasEmptyCache (λ key. ask (λ t. db.select_object_async t key seq))
            (λ j. row (blob j)) (k ∷ keys)
            (All-weaken IsRow _ (k ∷ keys)
              (λ j.
                Serves-ask HasEmptyCache HasEmptyCache-tick (λ t. db.select_object_async t j seq)
                  (row (blob j)))
              there))
          (λ w h. (w, ap (λ o. (o, w)) (collected (k ∷ keys)), h)))
        (λ w h. (w, ap (λ o. (o, w)) (filled_in (k ∷ keys)), h))

  Serves-fetch_objects :
      (keys : List ℕ) → All IsRow keys → Gives (fetch_ledger_objects db keys seq) (map blob keys)
  unfolding fetch_ledger_objects
  Serves-fetch_objects keys there =
      Serves-bind HasEmptyCache (traverse_m (λ key. with_cache (get key seq)) keys)
        (λ hits. fetch_missing db (misses keys hits) seq (map blob_or_empty hits))
        (map (λ k. none) keys) (map blob keys) (hits_none keys)
        (subst
          (λ l.
            Gives (fetch_missing db l seq (map blob_or_empty (map (λ k. none) keys)))
              (map blob keys))
          (sym (all_missed keys)) (Serves-objects keys there))

  page_objects-All :
      (keys : List ℕ)
      → All (λ (k : ℕ). is_empty (blob k) ≡ false) keys
      → page_objects keys (map blob keys) ≡ objects_of blob keys
  unfolding page_objects
  page_objects-All [] h = refl
  page_objects-All (k ∷ keys) h =
      rw h.0 (ap (◌∷◌ (record { key = k; blob = blob k })) (page_objects-All keys h.1))

  -- What holds of all keys holds of those of a page.
  All-page : (P : ℕ → Type 0) (n c : ℕ) (ys : List ℕ) → At ks c ys → All P ks → All P (take n ys)
  All-page P n c ys a h = All-take P n ys (At-behind_All P ks c ys a h)

  -- A page from the key `c` on.
  abbrev pub page_at : ℕ → List ℕ → LedgerPage
  page_at n ys = record {
    objects = objects_of blob (take n ys);
    cursor = page_cursor (take n ys) (is_short n ys);
  }

  pub Serves-page :
      (n : ℕ) (cursor : Option ℕ) (ys : List ℕ)
      → At ks (start_of cursor) ys
      → Gives (fetch_ledger_page db cursor seq n false) (page_at n ys)
  unfolding fetch_ledger_page page_of
  Serves-page n cursor ys a =
      Serves-bind HasEmptyCache (page_keys db n (start_of cursor) seq) _ (take n ys, is_short n ys)
        (page_at n ys) (Serves-page_keys n (start_of cursor) ys a)
        (Serves-bind HasEmptyCache (fetch_ledger_objects db (take n ys) seq)
          (λ blobs. pure (page_of db (take n ys) (is_short n ys) blobs)) (map blob (take n ys))
          (page_at n ys)
          (Serves-fetch_objects (take n ys) (All-page _ n (start_of cursor) ys a holds.objects))
          (λ w h. (
            w,
            ap
                (λ l. (
                  returns
                      (record { objects = l; cursor = page_cursor (take n ys) (is_short n ys) }),
                  w,
                ))
                (page_objects-All (take n ys) (All-page _ n (start_of cursor) ys a holds.filled)),
            h,
          )))
