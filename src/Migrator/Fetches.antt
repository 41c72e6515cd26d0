-- ===== src/Migrator/Fetches.antt =====
-- The fetches of a ledger page insert nothing (fetchLedgerPage of src/backend/BackendInterface.cpp
-- and the functions that try it again).
use clio_migrator.Prelude.{
  All-each, ℕ, zero, suc, ◌≡◌, List, [], ◌∷◌, Bool, true, false, Option, none, some, map,
}
use clio_migrator.Types.{Blob, LedgerObject}
use clio_migrator.Outcome.{returns}
use clio_migrator.Database.{
  Cassandra, World, M, ◌>>=◌, pure, ask, ask_outcome, with_cache, traverse_m,
}
use clio_migrator.Cache.{get, get_successor}
use clio_migrator.Backend.Reads.{
  do_fetch_successor_key, do_fetch_ledger_objects, fetch_missing, fetch_ledger_objects,
  fetch_successor_key, fill, misses, not_last, successor_or, collect, blob_or_empty,
}
use clio_migrator.Backend.Page.{page_keys, fetch_ledger_page, start_of, keys_from, page_of}
use clio_migrator.Migrator.Retry.{retry, do_try_fetch_ledger_page, max_retries}
use clio_migrator.Migrator.Log.{
  Reads, Reads-bind, Reads-pure, Reads-lift, Reads-ask, Reads-ask_outcome, Reads-with_cache,
  Reads-retry, Reads-traverse, Reads-weaken,
}

abbrev Any : {A : Type 0} → A → Type 0
Any a = Unit {0}

-- A computation that inserts nothing.
abbrev Only : {A : Type 0} → M A → Type 0
Only m = Reads Any m

Only-bind :
    {A B : Type 0} (m : M A) (f : A → M B) → Only m → ((a : A) → Only (f a)) → Only (m >>= f)
Only-bind m f h k = Reads-bind Any Any m f h (λ a u. k a)

Only-traverse :
    {A B : Type 0} (f : A → M B) (xs : List A) → ((x : A) → Only (f x)) → Only (traverse_m f xs)
Only-traverse f xs h =
    Reads-weaken _ Any (traverse_m f xs) (λ a p. tt)
      (Reads-traverse (λ x y. Unit {0}) f xs (All-each _ xs h))

pub Reads-result :
    {A : Type 0} (m : M A)
    → Reads (λ a. Unit {0}) m
    → Reads (λ a. (u : World) × ((m u).0 ≡ returns a)) m
Reads-result m h w = ((h w).0, λ a e. (w, e))

module _ (db : Cassandra) where
  Only-do_fetch_successor_key : (key seq : ℕ) → Only (do_fetch_successor_key db key seq)
  unfolding do_fetch_successor_key
  Only-do_fetch_successor_key key seq =
      Only-bind (ask_outcome (λ t. db.select_successor t key seq)) (λ next. pure (not_last db next))
        (Reads-ask_outcome Any (λ t. db.select_successor t key seq) (λ t a e. tt))
        λ next. Reads-pure Any (not_last db next) tt

  Only-successor_or :
      (fetched : M (Option ℕ)) (found : Option LedgerObject)
      → Only fetched
      → Only (successor_or db fetched found)
  Only-successor_or fetched none h = h
  Only-successor_or fetched (some o) h = Reads-pure Any (some o.key) tt

  pub Reads-fetch_successor_key :
      (key seq : ℕ) → Reads (λ succ. Unit {0}) (fetch_successor_key db key seq)
  unfolding fetch_successor_key
  Reads-fetch_successor_key key seq =
      Only-bind (with_cache (get_successor key seq))
        (successor_or db (do_fetch_successor_key db key seq))
        (Reads-with_cache Any (get_successor key seq) (λ c. tt))
        λ succ. Only-successor_or _ succ (Only-do_fetch_successor_key key seq)

  Only-keys_from :
      (again : ℕ → M (List ℕ × Bool)) (succ : Option ℕ)
      → ((k : ℕ) → Only (again k))
      → Only (keys_from again succ)
  Only-keys_from again none h = Reads-pure Any ([], true) tt
  Only-keys_from again (some k) h =
      Only-bind (again k) (λ found. pure (k ∷ found.0, found.1)) (h k)
        λ found. Reads-pure Any (k ∷ found.0, found.1) tt

  Only-page_keys : (left cursor seq : ℕ) → Only (page_keys db left cursor seq)
  unfolding page_keys
  Only-page_keys zero cursor seq = Reads-pure Any ([], false) tt
  Only-page_keys (suc left) cursor seq =
      Only-bind (fetch_successor_key db cursor seq) (keys_from (λ k. page_keys db left k seq))
        (Reads-fetch_successor_key cursor seq)
        λ succ. Only-keys_from _ succ (λ k. Only-page_keys left k seq)

  Only-do_fetch_ledger_objects :
      (keys : List ℕ) (seq : ℕ) → Only (do_fetch_ledger_objects db keys seq)
  unfolding do_fetch_ledger_objects
  Only-do_fetch_ledger_objects [] seq = Reads-pure Any [] tt
  Only-do_fetch_ledger_objects (k ∷ keys) seq =
      Only-bind (traverse_m (λ key. ask (λ t. db.select_object_async t key seq)) (k ∷ keys)) _
        (Only-traverse (λ key. ask (λ t. db.select_object_async t key seq)) (k ∷ keys)
          (λ key. Reads-ask Any (λ t. db.select_object_async t key seq) (λ t. tt)))
        λ answers. Reads-lift Any (collect [] answers) (λ a e. tt)

  Only-fetch_missing :
      (keys : List ℕ) (seq : ℕ) (results : List Blob) → Only (fetch_missing db keys seq results)
  unfolding fetch_missing
  Only-fetch_missing [] seq results = Reads-pure Any results tt
  Only-fetch_missing (k ∷ keys) seq results =
      Only-bind (do_fetch_ledger_objects db (k ∷ keys) seq) _
        (Only-do_fetch_ledger_objects (k ∷ keys) seq)
        λ objs. Reads-lift Any (fill results objs) (λ a e. tt)

  pub Reads-fetch_ledger_objects :
      (keys : List ℕ) (seq : ℕ) → Reads (λ blobs. Unit {0}) (fetch_ledger_objects db keys seq)
  unfolding fetch_ledger_objects
  Reads-fetch_ledger_objects keys seq =
      Only-bind (traverse_m (λ key. with_cache (get key seq)) keys) _
        (Only-traverse (λ key. with_cache (get key seq)) keys
          (λ key. Reads-with_cache Any (get key seq) (λ c. tt)))
        λ hits. Only-fetch_missing (misses keys hits) seq (map blob_or_empty hits)

  pub Reads-fetch_ledger_page :
      (cursor : Option ℕ) (seq limit : ℕ)
      → Reads (λ page. Unit {0}) (fetch_ledger_page db cursor seq limit false)
  unfolding fetch_ledger_page
  Reads-fetch_ledger_page cursor seq limit =
      Only-bind (page_keys db limit (start_of cursor) seq)
        (λ x. fetch_ledger_objects db x.0 seq >>= λ blobs. pure (page_of db x.0 x.1 blobs))
        (Only-page_keys limit (start_of cursor) seq)
        λ x.
          Only-bind (fetch_ledger_objects db x.0 seq) (λ blobs. pure (page_of db x.0 x.1 blobs))
            (Reads-fetch_ledger_objects x.0 seq)
            λ blobs. Reads-pure Any (page_of db x.0 x.1 blobs) tt

  pub Reads-was_read :
      (cursor : Option ℕ) (seq : ℕ)
      → Reads
          (λ page. (u : World) × ((do_try_fetch_ledger_page db cursor seq 0 u).0 ≡ returns page))
          (do_try_fetch_ledger_page db cursor seq 0)
  unfolding do_try_fetch_ledger_page
  Reads-was_read cursor seq =
      Reads-result (retry max_retries (fetch_ledger_page db cursor seq 10000 false)) (
        Reads-retry (λ page. Unit {0}) max_retries (fetch_ledger_page db cursor seq 10000 false)
          (Reads-fetch_ledger_page cursor seq 10000))
