-- ===== src/Cache/Background/Tracks.antt =====
-- One key of the cache through a batch of SimpleCache::update.
use clio_migrator.Prelude.{
  ℕ, ◌≤◌, ◌<◌, ◌≡◌, ◌≢◌, refl, sym, subst, ◌∙◌, ◌⊎◌, inl, inr, List, [], ◌∷◌, Bool, true, false,
  ◌||◌, Bool-cases, some, arith, ◌==◌, All,
}
use clio_migrator.Types.{Blob, LedgerObject, is_empty}
use clio_migrator.Cache.Sorted.{find, From, find-put, find-erase, erase-From, put-From}
use clio_migrator.Cache.{SimpleCache, update_object, update_objects, or_default, newest, contains}
use clio_migrator.Cache.Invariant.{update_object-full}
use clio_migrator.Cache.Background.{
  Fate, untouched, deleted, written, object_of, fate_of, is_some, expected, Absent, Distinct,
}

-- The state of one key.
pub record Tracks (base : ℕ) (blob : Blob) (k last : ℕ) (f : Fate) (l : Bool) (c : SimpleCache)
    : Type 0 where
  pub ordered : From 0 c.entries
  pub loading : c.full ≡ false
  pub enabled : c.disabled ≡ false
  pub base_pos : 0 < base
  pub newer : base ≤ last
  pub entry : find k c.entries ≡ expected base blob f l
  pub gone : f ≡ deleted → contains c.deletes k ≡ true
  pub kept : f ≡ untouched → contains c.deletes k ≡ false
  pub fresher : (s : ℕ) (b : Blob) → f ≡ written s b → (base < s) × (s ≤ last)

update_object-From :
    (seq : ℕ) (bg : Bool) (c : SimpleCache) (o : LedgerObject)
    → From 0 c.entries
    → From 0 (update_object seq bg c o).entries
unfolding update_object
update_object-From seq bg c o s =
    ground (arith, erase-From 0 o.key c.entries, put-From 0 o.key (newest seq o c) c.entries)

update_object-disabled :
    (seq : ℕ) (bg : Bool) (c : SimpleCache) (o : LedgerObject)
    → (update_object seq bg c o).disabled ≡ c.disabled
unfolding update_object
update_object-disabled seq bg c o = ground arith

module _ (base : ℕ) (blob : Blob) (k last : ℕ) where
  -- An object of another key.
  Tracks-other :
      (f : Fate) (l : Bool) (seq : ℕ) (bg : Bool) (c : SimpleCache) (o : LedgerObject)
      → o.key ≢ k
      → Tracks base blob k last f l c
      → Tracks base blob k last f l (update_object seq bg c o)
  unfolding update_object
  Tracks-other f l seq bg c o n t = record {
    ordered = update_object-From seq bg c o t.ordered;
    loading = update_object-full seq bg c o ∙ t.loading;
    enabled = update_object-disabled seq bg c o ∙ t.enabled;
    base_pos = t.base_pos;
    newer = t.newer;
    entry = ground (
      arith,
      t.entry,
      find-erase 0 o.key k c.entries t.ordered,
      find-put o.key k (newest seq o c) c.entries,
    );
    gone = λ e. ground (arith, t.gone e);
    kept = λ e. ground (arith, t.kept e);
    fresher = t.fresher;
  }

  Tracks-Absent :
      (f : Fate) (l : Bool) (seq : ℕ) (bg : Bool) (c : SimpleCache) (objs : List LedgerObject)
      → Absent k objs
      → Tracks base blob k last f l c
      → Tracks base blob k last f l (update_objects seq bg c objs)
  unfolding update_objects
  Tracks-Absent f l seq bg c [] a t = t
  Tracks-Absent f l seq bg c (o ∷ objs) a t =
      Tracks-Absent f l seq bg (update_object seq bg c o) objs a.1
        (Tracks-other f l seq bg c o a.0 t)

key_cases : (a b : ℕ) → ((a ≡ b) × ((a == b) ≡ true)) ⊎ ((a ≢ b) × ((a == b) ≡ false))
key_cases a b = elim (Bool-cases (a == b)) [
  | inl e ↦ inl (ground arith, e)
  | inr e ↦ inr (ground arith, e)
]

or_false : (l : Bool) → (l || false) ≡ l
or_false true = refl
or_false false = refl

or_true : (l : Bool) → (l || true) ≡ true
or_true true = refl
or_true false = refl

older :
    (base : ℕ) (blob : Blob) (seq : ℕ) (f : Fate) (l : Bool)
    → base < seq
    → ((s : ℕ) (b : Blob) → f ≡ written s b → s < seq)
    → (or_default (expected base blob f l)).seq < seq
older base blob seq untouched true h old = h
older base blob seq untouched false h old = omega arith
older base blob seq deleted l h old = omega arith
older base blob seq (written s b) l h old = old s b refl

-- An update of the key by a newer ledger.
Tracks-newer :
    (base : ℕ) (blob : Blob) (seq : ℕ) (f : Fate) (l : Bool) (c : SimpleCache) (o : LedgerObject)
    → base < seq
    → ((s : ℕ) (b : Blob) → f ≡ written s b → s < seq)
    → Tracks base blob o.key seq f l c
    → Tracks base blob o.key seq (fate_of seq (some o) f) l (update_object seq false c o)
unfolding update_object newest
Tracks-newer base blob seq f l c o h old t = record {
  ordered = update_object-From seq false c o t.ordered;
  loading = update_object-full seq false c o ∙ t.loading;
  enabled = update_object-disabled seq false c o ∙ t.enabled;
  base_pos = t.base_pos;
  newer = t.newer;
  entry = ground (
    arith,
    t.entry,
    older base blob seq f l h old,
    find-erase 0 o.key o.key c.entries t.ordered,
    find-put o.key o.key (newest seq o c) c.entries,
  );
  gone = λ e. ground arith;
  kept = λ e. ground arith;
  fresher = λ s b e. ground arith;
}

loaded_entry :
    (base : ℕ) (last : ℕ) (f : Fate) (l : Bool) (c : SimpleCache) (o : LedgerObject)
    → is_empty o.blob ≡ false
    → Tracks base o.blob o.key last f l c
    → find o.key (update_object base true c o).entries ≡ expected base o.blob f true
unfolding update_object newest
loaded_entry base last untouched true c o h t =
    ground (arith, t.entry, t.kept refl, find-put o.key o.key (newest base o c) c.entries)
loaded_entry base last untouched false c o h t =
    ground
      (arith, t.entry, t.base_pos, t.kept refl, find-put o.key o.key (newest base o c) c.entries)
loaded_entry base last deleted l c o h t = ground (arith, t.entry, t.gone refl)
loaded_entry base last (written s b) l c o h t =
    ground (arith, t.entry, t.fresher s b refl, find-put o.key o.key (newest base o c) c.entries)

-- The key is brought in by the background thread.
Tracks-loaded :
    (base : ℕ) (last : ℕ) (f : Fate) (l : Bool) (c : SimpleCache) (o : LedgerObject)
    → is_empty o.blob ≡ false
    → Tracks base o.blob o.key last f l c
    → Tracks base o.blob o.key last f true (update_object base true c o)
unfolding update_object newest
Tracks-loaded base last f l c o h t = record {
  ordered = update_object-From base true c o t.ordered;
  loading = update_object-full base true c o ∙ t.loading;
  enabled = update_object-disabled base true c o ∙ t.enabled;
  base_pos = t.base_pos;
  newer = t.newer;
  entry = loaded_entry base last f l c o h t;
  gone = λ e. ground (arith, t.gone e);
  kept = λ e. ground (arith, t.kept e);
  fresher = t.fresher;
}

-- A whole batch by a newer ledger.
pub objects-newer :
    (base : ℕ) (blob : Blob) (k seq : ℕ) (f : Fate) (l : Bool) (c : SimpleCache)
    (objs : List LedgerObject)
    → base < seq
    → ((s : ℕ) (b : Blob) → f ≡ written s b → s < seq)
    → Distinct objs
    → Tracks base blob k seq f l c
    → Tracks base blob k seq (fate_of seq (object_of k objs) f) l (update_objects seq false c objs)
unfolding update_objects
objects-newer base blob k seq f l c [] h old d t = t
objects-newer base blob k seq f l c (o ∷ objs) h old d t = elim (key_cases o.key k) [
  | inl (e, q) ↦ rw q (
      subst
        (λ x.
          Tracks base blob x seq (fate_of seq (some o) f) l
            (update_objects seq false (update_object seq false c o) objs))
        e
        (Tracks-Absent base blob o.key seq _ l seq false _ objs d.0 (
          Tracks-newer base blob seq f l c o h old
            (subst (λ x. Tracks base blob x seq f l c) (sym e) t))))
  | inr (n, q) ↦ rw q (
      objects-newer base blob k seq f l (update_object seq false c o) objs h old d.1
        (Tracks-other base blob k seq f l seq false c o n t))
]

-- A whole batch from the background thread.
pub objects-loaded :
    (base : ℕ) (ledger : ℕ → Blob) (k last : ℕ) (f : Fate) (l : Bool) (c : SimpleCache)
    (objs : List LedgerObject)
    → All (λ o. (o.blob ≡ ledger o.key) × (is_empty o.blob ≡ false)) objs
    → Distinct objs
    → Tracks base (ledger k) k last f l c
    → Tracks base
        (ledger k)
        k
        last
        f
        (l || is_some (object_of k objs))
        (update_objects base true c objs)
unfolding update_objects
objects-loaded base ledger k last f l c [] a d t = rw (or_false l) t
objects-loaded base ledger k last f l c (o ∷ objs) a d t = elim (key_cases o.key k) [
  | inl (e, q) ↦
      rw (q, or_true l)
        (subst
          (λ x.
            Tracks base (ledger x) x last f true
              (update_objects base true (update_object base true c o) objs))
          e
          (Tracks-Absent base (ledger o.key) o.key last f true base true _ objs d.0 (
            subst (λ b. Tracks base b o.key last f true (update_object base true c o)) a.0.0
              (Tracks-loaded base last f l c o a.0.1 (
                subst (λ b. Tracks base b o.key last f l c) (sym a.0.0)
                  (subst (λ x. Tracks base (ledger x) x last f l c) (sym e) t))))))
  | inr (n, q) ↦ rw q (
      objects-loaded base ledger k last f l (update_object base true c o) objs a.1 d.1
        (Tracks-other base (ledger k) k last f l base true c o n t))
]
