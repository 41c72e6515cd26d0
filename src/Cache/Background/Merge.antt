-- ===== src/Cache/Background/Merge.antt =====
-- The cache after a whole schedule of batches (SimpleCache::update, called by two threads).
use clio_migrator.Prelude.{
  ℕ, ◌<◌, ◌≡◌, refl, List, [], ◌∷◌, Bool, true, false, ◌||◌, arith, if◌then◌else◌, All,
}
use clio_migrator.Types.{Blob, LedgerObject, is_empty}
use clio_migrator.Cache.Sorted.{find}
use clio_migrator.Cache.{SimpleCache, update_objects, advance, update, fresh}
use clio_migrator.Cache.Background.{
  Batch, load, Fate, untouched, object_of, fate_of, fate, is_some, is_loaded, expected, Distinct,
  IsSchedule,
}
use clio_migrator.Cache.Background.Tracks.{Tracks, objects-newer, objects-loaded}

update_enabled :
    (objs : List LedgerObject) (seq : ℕ) (bg : Bool) (c : SimpleCache)
    → c.disabled ≡ false
    → update objs seq bg c ≡ update_objects seq bg (advance seq c) objs
unfolding update
update_enabled objs seq bg c e = ground arith

Tracks-advance :
    (base : ℕ) (blob : Blob) (k last seq : ℕ) (f : Fate) (l : Bool) (c : SimpleCache)
    → Tracks base blob k last f l c
    → Tracks base blob k last f l (advance seq c)
unfolding advance
Tracks-advance base blob k last seq f l c t = record {
  ordered = t.ordered;
  loading = t.loading;
  enabled = t.enabled;
  base_pos = t.base_pos;
  newer = t.newer;
  entry = t.entry;
  gone = t.gone;
  kept = t.kept;
  fresher = t.fresher;
}

Tracks-later :
    (base : ℕ) (blob : Blob) (k last seq : ℕ) (f : Fate) (l : Bool) (c : SimpleCache)
    → last < seq
    → Tracks base blob k last f l c
    → Tracks base blob k seq f l c
Tracks-later base blob k last seq f l c h t = record {
  ordered = t.ordered;
  loading = t.loading;
  enabled = t.enabled;
  base_pos = t.base_pos;
  newer = omega arith;
  entry = t.entry;
  gone = t.gone;
  kept = t.kept;
  fresher = λ s b e. omega (arith, t.fresher s b e);
}

module _ (base : ℕ) (ledger : ℕ → Blob) (k : ℕ) where
  batch-Tracks :
      (last : ℕ) (f : Fate) (l : Bool) (c : SimpleCache) (objs : List LedgerObject) (seq : ℕ)
      (bg : Bool)
      → Distinct objs
      → ((bg ≡ true)
          → (seq ≡ base) × All (λ o. (o.blob ≡ ledger o.key) × (is_empty o.blob ≡ false)) objs)
      → ((bg ≡ false) → last < seq)
      → Tracks base (ledger k) k last f l c
      → Tracks base
          (ledger k)
          k
          (if bg then last else seq)
          (if bg then f else fate_of seq (object_of k objs) f)
          (if bg then l || is_some (object_of k objs) else l)
          (update objs seq bg c)
  batch-Tracks last f l c objs seq true d old new t =
      rw ((old refl).0, update_enabled objs base true c t.enabled)
        (objects-loaded base ledger k last f l (advance base c) objs (old refl).1 d
          (Tracks-advance base (ledger k) k last base f l c t))
  batch-Tracks last f l c objs seq false d old new t =
      rw (update_enabled objs seq false c t.enabled) (
        objects-newer base (ledger k) k seq f l (advance seq c) objs
          (omega (arith, t.newer, new refl)) (λ s b e. omega (arith, t.fresher s b e, new refl)) d
          (Tracks-later base (ledger k) k last seq f l _ (new refl)
            (Tracks-advance base (ledger k) k last seq f l c t)))

  load-entry :
      (last : ℕ) (f : Fate) (l : Bool) (c : SimpleCache) (bs : List Batch)
      → IsSchedule base ledger last bs
      → Tracks base (ledger k) k last f l c
      → find k (load c bs).entries ≡ expected base (ledger k) (fate k f bs) (is_loaded k l bs)
  unfolding load fate is_loaded
  load-entry last f l c [] s t = t.entry
  load-entry last f l c (b ∷ bs) s t =
      load-entry (if b.is_background then last else b.seq)
        (if b.is_background then f else fate_of b.seq (object_of k b.objects) f)
        (if b.is_background then l || is_some (object_of k b.objects) else l)
        (update b.objects b.seq b.is_background c) bs s.3
        (batch-Tracks last f l c b.objects b.seq b.is_background s.0 s.1 s.2 t)

fresh-Tracks :
    (base : ℕ) (blob : Blob) (k : ℕ) → 0 < base → Tracks base blob k base untouched false fresh
unfolding find
fresh-Tracks base blob k h = record {
  ordered = tt;
  loading = refl;
  enabled = refl;
  base_pos = h;
  newer = omega arith;
  entry = refl;
  gone = λ e. cc;
  kept = λ e. refl;
  fresher = λ s b e. cc;
}

-- However the background thread's batches fall between the updates by newer ledgers, the cache
-- holds for each key what the last newer ledger that touched it wrote, nothing if that ledger
-- deleted it, and otherwise the object of the ledger `base` if it has been loaded. So a late load
-- neither overwrites a newer object nor brings a deleted one back.
pub load-merges :
    (base : ℕ) (ledger : ℕ → Blob) (bs : List Batch) (k : ℕ)
    → 0 < base
    → IsSchedule base ledger base bs
    → find k (load fresh bs).entries
      ≡ expected base (ledger k) (fate k untouched bs) (is_loaded k false bs)
load-merges base ledger bs k h s =
    load-entry base ledger k base untouched false fresh bs s (fresh-Tracks base (ledger k) k h)
