-- ===== src/Backend/Reads.antt =====
-- Reads through the cache and from the tables (src/backend/BackendInterface.cpp,
-- CassandraBackend.cpp).
pub mod Range
use clio_migrator.Prelude.{
  ℕ, zero, suc, List, [], ◌∷◌, Bool, true, false, Option, none, some, ltb, ◌==◌, if◌then◌else◌, map,
}
use clio_migrator.Types.{
  Blob, LedgerObject, LedgerRange, TransactionAndMetadata, Nft, is_empty, last_key,
}
use clio_migrator.Outcome.{Outcome, returns, throws, database_timeout, out_of_range, out_of_fuel}
use clio_migrator.Outcome
use clio_migrator.Cache.{get, get_successor}
use clio_migrator.Database.{
  Answer, failed, no_row, row, Cassandra, NftRow, M, ◌>>=◌, pure, lift, ask, ask_outcome,
  with_cache, catch_timeout, traverse_m,
}

-- A `std::vector` of values as they are constructed.
abbrev pub no_transaction : TransactionAndMetadata
no_transaction = record { transaction = []; metadata = []; ledger_sequence = 0; date = 0 }

module _ {A : Type 0} where
  abbrev pub has_failed : List (Answer A) → Bool
  has_failed [] = false
  has_failed (failed ∷ as') = true
  has_failed (no_row ∷ as') = has_failed as'
  has_failed (row a ∷ as') = has_failed as'

  abbrev pub row_or : A → Answer A → A
  row_or d failed = d
  row_or d no_row = d
  row_or d (row a) = a

  -- The end of a batch of reads: it throws if any of them failed.
  unfoldable pub collect : A → List (Answer A) → Outcome (List A)
  collect d answers =
      if has_failed answers then throws database_timeout else returns (map (row_or d) answers)

-- The loop that fills the gaps which the cache left, `results[i] = objs[j]; ++j;`.
unfoldable pub fill : List Blob → List Blob → Outcome (List Blob)
fill [] objs = returns []
fill ([] ∷ results) [] = throws out_of_range
fill ([] ∷ results) (obj ∷ objs) = Outcome.◌>>=◌ (fill results objs) (λ rest. returns (obj ∷ rest))
fill ((b ∷ bs) ∷ results) objs =
    Outcome.◌>>=◌ (fill results objs) (λ rest. returns ((b ∷ bs) ∷ rest))

abbrev pub blob_or_empty : Option Blob → Blob
blob_or_empty none = []
blob_or_empty (some b) = b

-- The keys that the cache has no blob for.
abbrev pub misses : List ℕ → List (Option Blob) → List ℕ
misses [] hits = []
misses (k ∷ ks) [] = []
misses (k ∷ ks) (none ∷ hits) = k ∷ misses ks hits
misses (k ∷ ks) (some b ∷ hits) = misses ks hits

-- One row is both ends of the range, two rows are its ends in either order.
unfoldable pub range_of_rows : List ℕ → Option LedgerRange
range_of_rows [] = none
range_of_rows (a ∷ []) = some (record { min_sequence = a; max_sequence = a })
range_of_rows (a ∷ b ∷ rows) =
    if ltb b a
    then some (record { min_sequence = b; max_sequence = a })
    else some (record { min_sequence = a; max_sequence = b })

module _ (db : Cassandra) where
  open db use {
    select_ledger_range, select_successor, select_object, select_object_async,
    select_transaction_async, select_nft, select_nft_uri,
  }

  unfoldable pub fetch_transactions : List ℕ → M (List TransactionAndMetadata)
  unfolding collect
  fetch_transactions [] = pure []
  fetch_transactions (h ∷ hashes) = do
    answers ← traverse_m (λ hash. ask (λ t. select_transaction_async t hash)) (h ∷ hashes)
    lift (collect no_transaction answers)

  unfoldable pub hard_fetch_ledger_range : M (Option LedgerRange)
  unfolding range_of_rows
  hard_fetch_ledger_range = do rows ← ask_outcome select_ledger_range; pure (range_of_rows rows)

  -- `while (true)` around a read that may time out, on fuel.
  unfoldable pub hard_fetch_ledger_range_no_throw : ℕ → M (Option LedgerRange)
  unfolding hard_fetch_ledger_range
  hard_fetch_ledger_range_no_throw zero = lift (throws out_of_fuel)
  hard_fetch_ledger_range_no_throw (suc fuel) =
      let again = hard_fetch_ledger_range_no_throw fuel in
      catch_timeout hard_fetch_ledger_range again

  -- The last key stands for the end.
  abbrev pub not_last : Option ℕ → Option ℕ
  not_last none = none
  not_last (some k) = if k == last_key then none else some k

  unfoldable pub do_fetch_successor_key : ℕ → ℕ → M (Option ℕ)
  do_fetch_successor_key key seq = do
    next ← ask_outcome (λ t. select_successor t key seq)
    pure (not_last next)

  unfoldable pub do_fetch_ledger_object : ℕ → ℕ → M (Option Blob)
  do_fetch_ledger_object key seq = do
    found ← ask_outcome (λ t. select_object t key seq)
    pure (elim found [ none ↦ none | some b ↦ if is_empty b then none else some b ])

  unfoldable pub do_fetch_ledger_objects : List ℕ → ℕ → M (List Blob)
  unfolding collect
  do_fetch_ledger_objects [] seq = pure []
  do_fetch_ledger_objects (k ∷ keys) seq = do
    answers ← traverse_m (λ key. ask (λ t. select_object_async t key seq)) (k ∷ keys)
    lift (collect [] answers)

  unfoldable pub fetch_ledger_object : ℕ → ℕ → M (Option Blob)
  unfolding do_fetch_ledger_object
  fetch_ledger_object key seq = do
    hit ← with_cache (get key seq)
    elim hit [ none ↦ do_fetch_ledger_object key seq | some b ↦ pure (some b) ]

  unfoldable pub fetch_missing : List ℕ → ℕ → List Blob → M (List Blob)
  unfolding do_fetch_ledger_objects fill
  fetch_missing [] seq results = pure results
  fetch_missing (k ∷ keys) seq results = do
    objs ← do_fetch_ledger_objects (k ∷ keys) seq
    lift (fill results objs)

  unfoldable pub fetch_ledger_objects : List ℕ → ℕ → M (List Blob)
  unfolding fetch_missing
  fetch_ledger_objects keys seq = do
    hits ← traverse_m (λ key. with_cache (get key seq)) keys
    fetch_missing (misses keys hits) seq (map blob_or_empty hits)

  abbrev pub successor_or : M (Option ℕ) → Option LedgerObject → M (Option ℕ)
  successor_or fetched none = fetched
  successor_or fetched (some o) = pure (some o.key)

  unfoldable pub fetch_successor_key : ℕ → ℕ → M (Option ℕ)
  unfolding do_fetch_successor_key
  fetch_successor_key key seq = do
    succ ← with_cache (get_successor key seq)
    successor_or (do_fetch_successor_key key seq) succ

  unfoldable pub fetch_successor_object : ℕ → ℕ → M (Option LedgerObject)
  unfolding fetch_successor_key fetch_ledger_object
  fetch_successor_object key seq = do
    succ ← fetch_successor_key key seq
    elim succ [
      | none ↦ pure none
      | some k ↦ (do
        blob ← fetch_ledger_object k seq
        pure (some (record { key = k; blob = blob_or_empty blob })))
    ]

  abbrev pub nft_of : ℕ → NftRow → Option Blob → Nft
  nft_of token_id found uri = record {
    token_id = token_id;
    ledger_sequence = found.sequence;
    owner = found.owner;
    uri = blob_or_empty uri;
    is_burned = found.is_burned;
  }

  -- The URI is read after the row.
  unfoldable pub with_uri : ℕ → ℕ → Option NftRow → M (Option Nft)
  with_uri token_id seq none = pure none
  with_uri token_id seq (some found) = do
    uri ← ask_outcome (λ t. select_nft_uri t token_id seq)
    pure (some (nft_of token_id found uri))

  unfoldable pub fetch_nft : ℕ → ℕ → M (Option Nft)
  unfolding with_uri
  fetch_nft token_id seq = do
    found ← ask_outcome (λ t. select_nft t token_id seq)
    with_uri token_id seq found
