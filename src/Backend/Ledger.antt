-- ===== src/Backend/Ledger.antt =====
-- The pages of a ledger that the database holds (fetchLedgerPage of
-- src/backend/BackendInterface.cpp), read through a cache that has nothing.
pub mod Keys
pub mod Pages
pub mod Ends
use clio_migrator.Prelude.{
  ℕ, zero, suc, ◌+◌, ◌<◌, ◌≡◌, ◌++◌, List, [], ◌∷◌, Bool, true, false, Option, none, some, ltb,
  find_if, map, All,
}
use clio_migrator.Types.{Blob, LedgerObject, last_key, first_key, is_empty}
use clio_migrator.Outcome.{returns}
use clio_migrator.Database.{Cassandra, World, row}

-- The key that follows, as the successor table gives it.
abbrev pub next_key : List ℕ → ℕ → Option ℕ
next_key ks k = find_if (λ j. ltb k j) ks

-- Strictly ascending keys above `low`, short of the last one.
abbrev pub Above : ℕ → List ℕ → Type 0
Above low [] = Unit {0}
Above low (k ∷ ks) = (low < k) × (k < last_key) × Above k ks

abbrev pub or_last : Option ℕ → ℕ
or_last none = last_key
or_last (some k) = k

-- The database holds a ledger with these keys and objects, none of them empty: the row of the first
-- key and of each key of the ledger names the key that follows it, that of the last one lastKey.
pub record HoldsLedger (db : Cassandra) (seq : ℕ) (ks : List ℕ) (blob : ℕ → Blob) : Type 0 where
  pub ascending : Above 0 ks
  pub successors :
      All
        (λ (k : ℕ).
          (t : ℕ) → db.select_successor t k seq ≡ returns (some (or_last (next_key ks k))))
        (first_key ∷ ks)
  pub objects : All (λ (k : ℕ). (t : ℕ) → db.select_object_async t k seq ≡ row (blob k)) ks
  pub filled : All (λ (k : ℕ). is_empty (blob k) ≡ false) ks

-- The cache of a program that has put nothing into it.
pub record HasEmptyCache (w : World) : Type 0 where
  pub no_entries : w.cache.entries ≡ []
  pub not_full : w.cache.full ≡ false

pub HasEmptyCache-tick :
    (w : World) → HasEmptyCache w → HasEmptyCache (record w { now = w.now + 1 })
HasEmptyCache-tick w h = record { no_entries = h.no_entries; not_full = h.not_full }

abbrev pub objects_of : (ℕ → Blob) → List ℕ → List LedgerObject
objects_of blob ks = map (λ k. record { key = k; blob = blob k }) ks
