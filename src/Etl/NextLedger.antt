-- ===== src/Etl/NextLedger.antt =====
-- The objects of the next ledger and their successors (the first part of buildNextLedger of
-- src/etl/ReportingETL.cpp, with the helpers for directories of src/backend/DBHelpers.h). The
-- answer of rippled has been parsed: a key is a number, an empty text for one is `none`. Assertions
-- are taken as compiled out; `*` on an empty optional is an error of its own.
pub mod Entries
pub mod Neighbors
pub mod Rows
pub mod Loops
pub mod Objects
pub mod Changes
pub mod Exact
pub mod Transactions
pub mod Built
mod Tests
use clio_migrator.Prelude.{
  ℕ, ◌+◌, ◌-◌, ◌*◌, ◌/◌, ◌%◌, ◌^◌, List, [], ◌∷◌, ◌++◌, Bool, true, false, not, ◌&&◌, ◌||◌, Option,
  none, some, map, ltb, ◌==◌, if◌then◌else◌,
}
use clio_migrator.Types.{Blob, LedgerObject, LedgerRange, is_empty, first_key, last_key}
use clio_migrator.Outcome.{Outcome, returns, throws, out_of_range, neighbors_not_included}
use clio_migrator.Outcome
use clio_migrator.Ripple.{Ripple, sf_owner}
use clio_migrator.Database.{Event}
use clio_migrator.Cache.{SimpleCache, get, get_successor, get_predecessor, update, contains}
use clio_migrator.Backend.LedgerWrites.{Insert, do_write_ledger_object, write_successor}

pub data ModType : Type 0 where
  unspecified created modified deleted : ModType

-- RawLedgerObject; `predecessor` and `successor` are there if the neighbours are included.
pub record RawObject : Type 0 where
  pub key : ℕ
  pub blob : Blob
  pub mod_type : ModType
  pub predecessor : Option ℕ
  pub successor : Option ℕ

-- The part of GetLedgerResponse that is about objects.
pub record RawLedger : Type 0 where
  pub neighbors_included : Bool
  pub book_successors : List (ℕ × Option ℕ)
  pub objects : List RawObject

-- What the backend holds: its cache, the ledger range, and the rows sent so far, those for NFTs by
-- themselves.
pub record Node : Type 0 where
  pub cache : SimpleCache
  pub range : Option LedgerRange
  pub sent : List Insert
  pub nfts : List Event

abbrev pub N : Type 0 → Type 0
N A = Node → Outcome A × Node

abbrev pub and_then : {A B : Type 0} → Outcome A × Node → (A → N B) → Outcome B × Node
and_then (returns a, n) f = f a n
and_then (throws e, n) f = (throws e, n)

infixl 5 ◌>>=◌ ◌>>◌
abbrev pub ◌>>=◌ : {A B : Type 0} → N A → (A → N B) → N B
◌>>=◌ m f n = and_then (m n) f

abbrev pub ◌>>◌ : {B : Type 0} → N (Unit {0}) → N B → N B
m >> k = m >>= λ _. k

abbrev pub pure : {A : Type 0} → A → N A
pure a n = (returns a, n)

abbrev pub lift : {A : Type 0} → Outcome A → N A
lift o n = (o, n)

abbrev pub send : List Insert → N (Unit {0})
send rows n = (returns tt, record n { sent = n.sent ++ rows })

abbrev pub with_cache : {A : Type 0} → (SimpleCache → A × SimpleCache) → N A
with_cache f n = (returns (f n.cache).0, record n { cache = (f n.cache).1 })

-- `*` on an optional
abbrev pub dereference : {A : Type 0} → Option A → N A
dereference none = lift (throws out_of_range)
dereference (some a) = pure a

abbrev pub key_or : ℕ → Option ℕ → ℕ
key_or default none = default
key_or default (some k) = k

-- `seq - 1` at 32 bits
abbrev pub before : ℕ → ℕ
before seq = (seq + (2 ^ 32 - 1)) % 2 ^ 32

abbrev pub is_modified : ModType → Bool
is_modified modified = true
is_modified _ = false

abbrev pub third_byte_is : List ℕ → Outcome Bool
third_byte_is (a ∷ b ∷ c ∷ bytes) = returns (b == 0 && c == 0x64)
third_byte_is _ = throws out_of_range

-- The type of a ledger entry is in its second and third byte.
abbrev pub is_dir_node : Blob → Outcome Bool
is_dir_node blob = third_byte_is blob

-- The key with its last 8 bytes cleared.
abbrev pub get_book_base : ℕ → ℕ
get_book_base key = key / 2 ^ 64 * 2 ^ 64

-- A `std::set` of keys, ascending.
unfoldable pub insert_base : ℕ → List ℕ → List ℕ
insert_base k [] = k ∷ []
insert_base k (j ∷ s) = if ltb k j then k ∷ j ∷ s else if j == k then j ∷ s else j ∷ insert_base k s

-- The rows of successors where rippled has sent the neighbours.
unfoldable pub book_successor_rows : ℕ → List (ℕ × Option ℕ) → List Insert
book_successor_rows seq [] = []
book_successor_rows seq ((book_base, first_book) ∷ books) =
    write_successor book_base seq (key_or last_key first_book) ++ book_successor_rows seq books

abbrev pub neighbor_rows : ModType → ℕ → ℕ → ℕ → ℕ → List Insert
neighbor_rows modified seq key pred succ = []
neighbor_rows deleted seq key pred succ = write_successor pred seq succ
neighbor_rows _ seq key pred succ = write_successor pred seq key ++ write_successor key seq succ

unfoldable pub sent_neighbor_rows : ℕ → List RawObject → List Insert
sent_neighbor_rows seq [] = []
sent_neighbor_rows seq (obj ∷ objs) =
    neighbor_rows obj.mod_type seq obj.key (key_or first_key obj.predecessor)
      (key_or last_key obj.successor)
    ++ sent_neighbor_rows seq objs

-- `!isFull() || latestLedgerSequence() != seq`
abbrev pub require_cache : ℕ → N (Unit {0})
require_cache seq n =
    if not n.cache.full || not (n.cache.latest_seq == seq)
    then (throws neighbors_not_included, n)
    else (returns tt, n)

-- The blob that tells whether the object is, or was, a directory of a book.
abbrev pub old_or_new : ℕ → ℕ → Blob → N Blob
old_or_new seq key [] = with_cache (get key (before seq)) >>= dereference
old_or_new seq key (b ∷ bs) = pure (b ∷ bs)

abbrev pub first_changes : Bool → ℕ → ℕ → Bool
first_changes is_deleted key old_first =
    (is_deleted && key == old_first) || (not is_deleted && ltb key old_first)

module _ (r : Ripple) where
  open r use {parse_st_ledger_entry, is_field_present}

  unfoldable pub is_book_dir : ℕ → Blob → Outcome Bool
  is_book_dir key blob = Outcome.◌>>=◌ (is_dir_node blob) (λ is_dir.
      if is_dir
      then Outcome.◌>>=◌ (parse_st_ledger_entry blob key)
          (λ sle. returns (not (is_field_present sle sf_owner)))
      else returns false)

  -- The bases of the books whose first directory changes, with that of this object.
  unfoldable pub check_book_base : ℕ → RawObject → List ℕ → N (List ℕ)
  unfolding is_book_dir
  check_book_base seq obj bases = do
    require_cache (before seq)
    blob ← old_or_new seq obj.key obj.blob
    check ← lift (is_book_dir obj.key blob)
    if check
        then (do
          first ← with_cache (get_successor (get_book_base obj.key) (before seq))
          old_first_dir ← dereference first
          pure (
              if first_changes (is_empty obj.blob) obj.key old_first_dir.key
              then insert_base (get_book_base obj.key) bases
              else bases))
        else pure bases

  -- The loop over the objects that writes their rows.
  unfoldable pub object_loop : ℕ → Bool → List RawObject → List ℕ → N (List ℕ)
  unfolding check_book_base
  object_loop seq included [] bases = pure bases
  object_loop seq included (obj ∷ objs) bases = do
    found ←
        (if is_modified obj.mod_type || included then pure bases else check_book_base seq obj bases)
    (λ n. send (do_write_ledger_object n.range obj.key seq obj.blob) n)
    object_loop seq included objs found

abbrev pub cache_updates : List RawObject → List LedgerObject
cache_updates objs = map (λ o. record { key = o.key; blob = o.blob }) objs

abbrev pub modified_keys : List RawObject → List ℕ
modified_keys [] = []
modified_keys (obj ∷ objs) =
    if is_modified obj.mod_type then obj.key ∷ modified_keys objs else modified_keys objs

abbrev pub key_of : Option LedgerObject → Option ℕ
key_of none = none
key_of (some o) = some o.key

-- The rows of an object from its neighbours in the cache.
abbrev pub own_neighbor_rows :
    ℕ → LedgerObject → Option LedgerObject → Option LedgerObject → List Insert
own_neighbor_rows seq obj lb ub =
    if is_empty obj.blob
    then write_successor (key_or first_key (key_of lb)) seq (key_or last_key (key_of ub))
    else write_successor (key_or first_key (key_of lb)) seq obj.key
      ++ write_successor obj.key seq (key_or last_key (key_of ub))

unfoldable pub neighbor_loop : ℕ → List ℕ → List LedgerObject → N (Unit {0})
neighbor_loop seq skipped [] = pure tt
neighbor_loop seq skipped (obj ∷ objs) = do
  (if contains skipped obj.key then pure tt else (do
    lb ← with_cache (λ c. (get_predecessor obj.key seq c, c))
    ub ← with_cache (get_successor obj.key seq)
    send (own_neighbor_rows seq obj lb ub)))
  neighbor_loop seq skipped objs

unfoldable pub base_loop : ℕ → List ℕ → N (Unit {0})
base_loop seq [] = pure tt
base_loop seq (base ∷ bases) = do
  succ ← with_cache (get_successor base seq)
  send (write_successor base seq (key_or last_key (key_of succ)))
  base_loop seq bases

-- The successors from the cache, where rippled has sent none.
unfoldable pub own_successors : ℕ → List RawObject → List ℕ → N (Unit {0})
unfolding neighbor_loop base_loop
own_successors seq objs bases = do
  require_cache seq
  neighbor_loop seq (modified_keys objs) (cache_updates objs)
  base_loop seq bases

module _ (r : Ripple) where
  -- All writes of objects and successors of the ledger.
  unfoldable pub write_objects : ℕ → RawLedger → N (Unit {0})
  unfolding object_loop own_successors
  write_objects seq raw = do
    (if raw.neighbors_included
        then send
            (book_successor_rows seq raw.book_successors ++ sent_neighbor_rows seq raw.objects)
        else pure tt)
    bases ← object_loop r seq raw.neighbors_included raw.objects []
    with_cache (λ c. (tt, update (cache_updates raw.objects) seq false c))
    if raw.neighbors_included then pure tt else own_successors seq raw.objects bases
