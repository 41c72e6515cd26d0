-- ===== src/Backend/Page.antt =====
-- A page of the objects of a ledger (BackendInterface::fetchLedgerPage of
-- src/backend/BackendInterface.cpp).
use clio_migrator.Prelude.{
  ℕ, zero, suc, List, [], ◌∷◌, Bool, true, false, Option, none, some, if◌then◌else◌,
}
use clio_migrator.Types.{Blob, LedgerObject, LedgerPage, is_empty, first_key}
use clio_migrator.Outcome.{Outcome, returns, throws, out_of_range}
use clio_migrator.Database.{Cassandra, World, M, ◌>>=◌, pure}
use clio_migrator.Backend.Reads.{fetch_successor_key, fetch_ledger_objects}

abbrev pub start_of : Option ℕ → ℕ
start_of none = first_key
start_of (some cursor) = cursor

-- The objects that have a blob.
unfoldable pub page_objects : List ℕ → List Blob → List LedgerObject
page_objects [] blobs = []
page_objects (k ∷ keys) [] = []
page_objects (k ∷ keys) (blob ∷ blobs) =
    let rest = page_objects keys blobs in
    if is_empty blob then rest else record { key = k; blob = blob } ∷ rest

-- `keys.back()`
unfoldable pub last_of : List ℕ → Option ℕ
last_of [] = none
last_of (k ∷ []) = some k
last_of (k ∷ j ∷ keys) = last_of (j ∷ keys)

unfoldable pub page_cursor : List ℕ → Bool → Option ℕ
unfolding last_of
page_cursor keys reached_end = if reached_end then none else last_of keys

-- `range->maxSequence`
abbrev pub max_of_range : World → Outcome ℕ × World
max_of_range w = (elim w.range [ none ↦ throws out_of_range | some r ↦ returns r.max_sequence ], w)

-- A key before those that follow it; without a key the end is reached.
abbrev pub keys_from : (ℕ → M (List ℕ × Bool)) → Option ℕ → M (List ℕ × Bool)
keys_from again none = pure ([], true)
keys_from again (some k) = again k >>= λ found. pure (k ∷ found.0, found.1)

module _ (db : Cassandra) where
  -- The loop over the successors, `left` keys at most from `cursor` on, and whether it has come to
  -- the end.
  unfoldable pub page_keys : ℕ → ℕ → ℕ → M (List ℕ × Bool)
  page_keys zero cursor seq = pure ([], false)
  page_keys (suc left) cursor seq = do
    succ ← fetch_successor_key db cursor seq
    keys_from (λ k. page_keys left k seq) succ

  unfoldable pub page_of : List ℕ → Bool → List Blob → LedgerPage
  unfolding page_objects page_cursor
  page_of keys reached_end blobs = record {
    objects = page_objects keys blobs;
    cursor = page_cursor keys reached_end;
  }

  unfoldable pub fetch_ledger_page : Option ℕ → ℕ → ℕ → Bool → M LedgerPage
  unfolding page_keys page_of
  fetch_ledger_page cursor ledger_sequence limit out_of_order = do
    seq ← (if out_of_order then max_of_range else pure ledger_sequence)
    (keys, reached_end) ← page_keys limit (start_of cursor) seq
    blobs ← fetch_ledger_objects db keys ledger_sequence
    pure (page_of keys reached_end blobs)
