-- ===== src/Cache/Background.antt =====
-- The cache while it is loaded: a background thread brings in the objects of the ledger `base` in
-- batches, in between the updates by the newer ledgers (`isBackground` of SimpleCache::update).
pub mod Tracks
pub mod Merge
use clio_migrator.Prelude.{
  ℕ, ◌≤◌, ◌<◌, ◌≡◌, ◌≢◌, refl, sym, subst, ◌∙◌, ◌⊎◌, inl, inr, List, [], ◌∷◌, Bool, true, false,
  ◌||◌, Bool-cases, Option, none, some, arith, ltb, ◌==◌, if◌then◌else◌, All, find_if, not,
}
use clio_migrator.Types.{Blob, LedgerObject, is_empty}
use clio_migrator.Cache.Sorted.{find, put, erase, From, find-put, find-erase, erase-From, put-From}
use clio_migrator.Cache.{
  SimpleCache, CacheEntry, update_object, update_objects, advance, update, fresh, or_default,
  newest, contains,
}
use clio_migrator.Cache.Invariant.{update_object-full}

pub record Batch : Type 0 where
  pub objects : List LedgerObject
  pub seq : ℕ
  pub is_background : Bool

unfoldable pub load : SimpleCache → List Batch → SimpleCache
load c [] = c
load c (b ∷ bs) = load (update b.objects b.seq b.is_background c) bs

-- What the updates by newer ledgers have done to a key.
pub data Fate : Type 0 where
  untouched deleted : Fate
  written : ℕ → Blob → Fate

abbrev pub object_of : ℕ → List LedgerObject → Option LedgerObject
object_of k objs = find_if (λ o. o.key == k) objs

abbrev pub fate_of : ℕ → Option LedgerObject → Fate → Fate
fate_of seq none f = f
fate_of seq (some o) f = if is_empty o.blob then deleted else written seq o.blob

-- The fate of a key after a schedule, and whether the background thread has brought it in.
unfoldable pub fate : ℕ → Fate → List Batch → Fate
fate k f [] = f
fate k f (b ∷ bs) =
    fate k (if b.is_background then f else fate_of b.seq (object_of k b.objects) f) bs

abbrev pub is_some {ℓ} : {A : Type ℓ} → Option A → Bool
is_some none = false
is_some (some a) = true

unfoldable pub is_loaded : ℕ → Bool → List Batch → Bool
is_loaded k l [] = l
is_loaded k l (b ∷ bs) =
    is_loaded k (if b.is_background then l || is_some (object_of k b.objects) else l) bs

-- What the cache should hold for a key: the last word of a newer ledger, else what was loaded.
abbrev pub expected : ℕ → Blob → Fate → Bool → Option CacheEntry
expected base blob untouched true = some (record { seq = base; blob = blob })
expected base blob untouched false = none
expected base blob deleted l = none
expected base blob (written s b) l = some (record { seq = s; blob = b })

abbrev pub Absent : ℕ → List LedgerObject → Type 0
Absent k objs = All (λ o. o.key ≢ k) objs

-- No key stands twice in a batch.
abbrev pub Distinct : List LedgerObject → Type 0
Distinct [] = Unit {0}
Distinct (o ∷ objs) = Absent o.key objs × Distinct objs

-- Newer ledgers come in ascending order; background batches hold objects of the ledger `base`.
abbrev pub IsSchedule : ℕ → (ℕ → Blob) → ℕ → List Batch → Type 0
IsSchedule base ledger last [] = Unit {0}
IsSchedule base ledger last (b ∷ bs) =
    Distinct b.objects
    × ((b.is_background ≡ true)
        → (b.seq ≡ base) × All (λ o. (o.blob ≡ ledger o.key) × (is_empty o.blob ≡ false)) b.objects)
    × ((b.is_background ≡ false) → last < b.seq)
    × IsSchedule base ledger (if b.is_background then last else b.seq) bs
