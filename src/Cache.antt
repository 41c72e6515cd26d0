-- ===== src/Cache.antt =====
-- The cache of ledger objects (src/backend/SimpleCache.h, SimpleCache.cpp). A method that changes a
-- mutable field returns the new cache; the locks make each method one step, except that the
-- lock of getSuccessor is a temporary that ends at once: its step is that of a call which no update
-- meets. Assertions are taken as compiled out. The request counters are 32-bit and wrap.
pub mod Sorted
pub mod Invariant
pub mod Background
mod Tests
use clio_migrator.Prelude.{
  ℕ, ◌+◌, ◌%◌, ◌^◌, List, [], ◌∷◌, Bool, true, false, not, ◌&&◌, ◌||◌, Option, none, some, ltb,
  ◌==◌, if◌then◌else◌,
}
use clio_migrator.Types.{Blob, LedgerObject, is_empty}
use Sorted.{find, put, erase, upper_bound, below_lower_bound}

pub record CacheEntry : Type 0 where
  pub seq : ℕ
  pub blob : Blob

pub record SimpleCache : Type 0 where
  pub object_req_counter : ℕ
  pub object_hit_counter : ℕ
  pub successor_req_counter : ℕ
  pub successor_hit_counter : ℕ
  pub entries : List (ℕ × CacheEntry)
  pub latest_seq : ℕ
  pub full : Bool
  pub disabled : Bool
  pub deletes : List ℕ

-- A cache as it is constructed.
abbrev pub fresh : SimpleCache
fresh = record {
  object_req_counter = 0;
  object_hit_counter = 0;
  successor_req_counter = 0;
  successor_hit_counter = 0;
  entries = [];
  latest_seq = 0;
  full = false;
  disabled = false;
  deletes = [];
}

-- `++` on a 32-bit counter
abbrev pub increment : ℕ → ℕ
increment n = (n + 1) % 2 ^ 32

-- `std::unordered_set`: `count` and `insert`.
abbrev pub contains : List ℕ → ℕ → Bool
contains [] k = false
contains (j ∷ s) k = j == k || contains s k

abbrev pub insert : ℕ → List ℕ → List ℕ
insert k s = if contains s k then s else k ∷ s

abbrev pub or_default : Option CacheEntry → CacheEntry
or_default none = record { seq = 0; blob = [] }
or_default (some e) = e

-- The entry that `map_[obj.key]` holds after an object with a blob: the newer of the two.
unfoldable pub newest : ℕ → LedgerObject → SimpleCache → CacheEntry
newest seq obj c =
    let e = or_default (find obj.key c.entries) in
    if ltb e.seq seq then record { seq = seq; blob = obj.blob } else e

-- One round of the loop of `update`.
unfoldable pub update_object : ℕ → Bool → SimpleCache → LedgerObject → SimpleCache
update_object seq is_background c obj =
    if is_empty obj.blob
    then record c {
      entries = erase obj.key c.entries;
      deletes = if not c.full && not is_background then insert obj.key c.deletes else c.deletes;
    }
    else if is_background && contains c.deletes obj.key
    then c
    else record c { entries = put obj.key (newest seq obj c) c.entries }

unfoldable pub update_objects : ℕ → Bool → SimpleCache → List LedgerObject → SimpleCache
update_objects seq is_background c [] = c
update_objects seq is_background c (obj ∷ objs) =
    update_objects seq is_background (update_object seq is_background c obj) objs

unfoldable pub advance : ℕ → SimpleCache → SimpleCache
advance seq c = record c { latest_seq = if ltb c.latest_seq seq then seq else c.latest_seq }

unfoldable pub update : List LedgerObject → ℕ → Bool → SimpleCache → SimpleCache
update objs seq is_background c =
    if c.disabled then c else update_objects seq is_background (advance seq c) objs

abbrev pub to_object : ℕ × CacheEntry → LedgerObject
to_object (k, e) = record { key = k; blob = e.blob }

unfoldable pub get_successor : ℕ → ℕ → SimpleCache → Option LedgerObject × SimpleCache
get_successor key seq c =
    let counted : SimpleCache = record c {
      successor_req_counter = increment c.successor_req_counter;
    } in
    if not c.full
    then (none, c)
    else if not (seq == c.latest_seq)
    then (none, counted)
    else elim (upper_bound key c.entries) [
      | none ↦ (none, counted)
      | some e ↦ (
        some (to_object e),
        record counted { successor_hit_counter = increment c.successor_hit_counter },
      )
    ]

unfoldable pub get_predecessor : ℕ → ℕ → SimpleCache → Option LedgerObject
get_predecessor key seq c =
    if not c.full
    then none
    else if not (seq == c.latest_seq)
    then none
    else elim (below_lower_bound key c.entries) [ none ↦ none | some e ↦ some (to_object e) ]

unfoldable pub get : ℕ → ℕ → SimpleCache → Option Blob × SimpleCache
get key seq c =
    let counted : SimpleCache = record c { object_req_counter = increment c.object_req_counter } in
    if ltb c.latest_seq seq then (none, c) else elim (find key c.entries) [
      | none ↦ (none, counted)
      | some e ↦
          if ltb seq e.seq
          then (none, counted)
          else (some e.blob, record counted { object_hit_counter = increment c.object_hit_counter })
    ]

unfoldable pub set_disabled : SimpleCache → SimpleCache
set_disabled c = record c { disabled = true }

unfoldable pub set_full : SimpleCache → SimpleCache
set_full c = if c.disabled then c else record c { full = true; deletes = [] }
