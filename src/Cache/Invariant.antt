-- ===== src/Cache/Invariant.antt =====
-- What every method of the cache keeps, and what a full cache answers.
use clio_migrator.Prelude.{
  ℕ, ◌↔◌, Option-cases, ◌≤◌, ◌<◌, ◌≡◌, refl, sym, ◌∙◌, inl, inr, List, [], ◌∷◌, Bool, true,
  if_cases, Option, none, some, arith,
}
use clio_migrator.Types.{Blob, LedgerObject}
use clio_migrator.Cache.Sorted.{
  find, upper_bound, below_lower_bound, From, put-From, erase-From, find-put, find-erase, IsNext,
  IsPrevious, upper_bound-IsNext, below_lower_bound-IsPrevious,
}
use clio_migrator.Cache.{
  SimpleCache, CacheEntry, update_object, update_objects, advance, update, get_successor,
  get_predecessor, get, set_disabled, set_full, fresh, or_default, to_object, newest,
}

pub record IsValid (c : SimpleCache) : Type 0 where
  pub ordered : From 0 c.entries
  -- No entry is newer than the newest ledger that the cache has seen.
  pub bounded : (k : ℕ) (e : CacheEntry) → find k c.entries ≡ some e → e.seq ≤ c.latest_seq
  -- A full cache needs no record of the deleted keys.
  pub clean : c.full ≡ true → c.deletes ≡ []

pub advance-IsValid : (seq : ℕ) (c : SimpleCache) → IsValid c → IsValid (advance seq c)
unfolding advance
advance-IsValid seq c v = record {
  ordered = v.ordered;
  bounded = λ k e h. ground (arith, v.bounded k e h);
  clean = v.clean;
}

pub update_object-latest_seq :
    (seq : ℕ) (bg : Bool) (c : SimpleCache) (obj : LedgerObject)
    → (update_object seq bg c obj).latest_seq ≡ c.latest_seq
unfolding update_object newest
update_object-latest_seq seq bg c obj = ground arith

pub update_object-full :
    (seq : ℕ) (bg : Bool) (c : SimpleCache) (obj : LedgerObject)
    → (update_object seq bg c obj).full ≡ c.full
unfolding update_object
update_object-full seq bg c obj = ground arith

pub update_object-IsValid :
    (seq : ℕ) (bg : Bool) (c : SimpleCache) (obj : LedgerObject)
    → seq ≤ c.latest_seq
    → IsValid c
    → IsValid (update_object seq bg c obj)
unfolding update_object newest
update_object-IsValid seq bg c obj h v = record {
  ordered = ground (
    arith,
    v.ordered,
    erase-From 0 obj.key c.entries,
    put-From 0 obj.key (newest seq obj c) c.entries,
  );
  bounded = λ k e q. ground (
    arith,
    find-erase 0 obj.key k c.entries v.ordered,
    find-put obj.key k (newest seq obj c) c.entries,
    v.bounded k e,
    v.bounded obj.key (or_default (find obj.key c.entries)),
  );
  clean = λ q. ground (arith, v.clean (sym (update_object-full seq bg c obj) ∙ q));
}

pub update_objects-IsValid :
    (seq : ℕ) (bg : Bool) (c : SimpleCache) (objs : List LedgerObject)
    → seq ≤ c.latest_seq
    → IsValid c
    → IsValid (update_objects seq bg c objs)
unfolding update_objects
update_objects-IsValid seq bg c [] h v = v
update_objects-IsValid seq bg c (obj ∷ objs) h v =
    update_objects-IsValid seq bg (update_object seq bg c obj) objs
      (omega (arith, update_object-latest_seq seq bg c obj))
      (update_object-IsValid seq bg c obj h v)

advance-le : (seq : ℕ) (c : SimpleCache) → seq ≤ (advance seq c).latest_seq
unfolding advance
advance-le seq c = ground arith

update-IsValid :
    (objs : List LedgerObject) (seq : ℕ) (bg : Bool) (c : SimpleCache)
    → IsValid c
    → IsValid (update objs seq bg c)
unfolding update
update-IsValid objs seq bg c v =
    if_cases IsValid c.disabled (λ e. v)
      λ e.
        update_objects-IsValid seq bg (advance seq c) objs (advance-le seq c)
          (advance-IsValid seq c v)

-- The methods of the class.
pub data Call : Type 0 where
  updates : List LedgerObject → ℕ → Bool → Call
  gets successors predecessors : ℕ → ℕ → Call
  sets_full sets_disabled : Call

unfoldable pub step : SimpleCache → Call → SimpleCache
step c (updates objs seq bg) = update objs seq bg c
step c (gets key seq) = (get key seq c).1
step c (successors key seq) = (get_successor key seq c).1
step c (predecessors key seq) = c
step c sets_full = set_full c
step c sets_disabled = set_disabled c

unfoldable pub run : SimpleCache → List Call → SimpleCache
run c [] = c
run c (a ∷ as') = run (step c a) as'

module _ (c : SimpleCache) (v : IsValid c) where
  reads-IsValid :
      (d : SimpleCache)
      → d.entries ≡ c.entries
      → d.latest_seq ≡ c.latest_seq
      → d.full ≡ c.full
      → d.deletes ≡ c.deletes
      → IsValid d
  reads-IsValid d e l f g = record {
    ordered = rw e v.ordered;
    bounded = λ k x q. rw l (v.bounded k x (rw (← e) q));
    clean = λ q. g ∙ v.clean (sym f ∙ q);
  }

pub step-IsValid : (c : SimpleCache) (a : Call) → IsValid c → IsValid (step c a)
unfolding step get get_successor set_full set_disabled
step-IsValid c (updates objs seq bg) v = update-IsValid objs seq bg c v
step-IsValid c (gets key seq) v =
    reads-IsValid c v _ (ground arith) (ground arith) (ground arith) (ground arith)
step-IsValid c (successors key seq) v =
    reads-IsValid c v _ (ground arith) (ground arith) (ground arith) (ground arith)
step-IsValid c (predecessors key seq) v = v
step-IsValid c sets_full v =
    if_cases IsValid c.disabled (λ e. v)
      λ e. record { ordered = v.ordered; bounded = v.bounded; clean = λ q. refl }
step-IsValid c sets_disabled v = record {
  ordered = v.ordered;
  bounded = v.bounded;
  clean = v.clean;
}

pub fresh-IsValid : IsValid fresh
unfolding find
fresh-IsValid = record { ordered = tt; bounded = λ k e h. cc; clean = λ h. refl }

run_from-IsValid : (c : SimpleCache) (calls : List Call) → IsValid c → IsValid (run c calls)
unfolding run
run_from-IsValid c [] v = v
run_from-IsValid c (a ∷ calls) v = run_from-IsValid (step c a) calls (step-IsValid c a v)

-- After any calls on a new cache the keys are in order, no entry is newer than the newest ledger
-- seen, and a full cache holds no record of deleted keys.
pub run-IsValid : (calls : List Call) → IsValid (run fresh calls)
run-IsValid calls = run_from-IsValid fresh calls fresh-IsValid

-- `r` is the object with the least key above `key`, or there is none.
abbrev pub IsSuccessor : ℕ → SimpleCache → Option LedgerObject → Type 0
IsSuccessor key c none = (i : ℕ) → key < i → find i c.entries ≡ none
IsSuccessor key c (some o) =
    (key < o.key)
    × ((seq : ℕ) × (find o.key c.entries ≡ some (record { seq = seq; blob = o.blob })))
    × ((i : ℕ) → key < i → i < o.key → find i c.entries ≡ none)

abbrev pub IsPredecessor : ℕ → SimpleCache → Option LedgerObject → Type 0
IsPredecessor key c none = (i : ℕ) → i < key → find i c.entries ≡ none
IsPredecessor key c (some o) =
    (o.key < key)
    × ((seq : ℕ) × (find o.key c.entries ≡ some (record { seq = seq; blob = o.blob })))
    × ((i : ℕ) → o.key < i → i < key → find i c.entries ≡ none)

answer : Option (ℕ × CacheEntry) → Option LedgerObject
answer none = none
answer (some e) = some (to_object e)

answer-IsSuccessor :
    (key : ℕ) (c : SimpleCache) (r : Option (ℕ × CacheEntry))
    → IsNext key c.entries r
    → IsSuccessor key c (answer r)
unfolding answer
answer-IsSuccessor key c none n = n
answer-IsSuccessor key c (some (j, e)) n = (n.0, (e.seq, n.1), n.2)

answer-IsPredecessor :
    (key : ℕ) (c : SimpleCache) (r : Option (ℕ × CacheEntry))
    → IsPrevious key c.entries r
    → IsPredecessor key c (answer r)
unfolding answer
answer-IsPredecessor key c none n = n
answer-IsPredecessor key c (some (j, e)) n = (n.0, (e.seq, n.1), n.2)

get_successor-answer :
    (key : ℕ) (c : SimpleCache)
    → c.full ≡ true
    → (get_successor key c.latest_seq c).0 ≡ answer (upper_bound key c.entries)
unfolding get_successor answer
get_successor-answer key c f = ground arith

get_predecessor-answer :
    (key : ℕ) (c : SimpleCache)
    → c.full ≡ true
    → get_predecessor key c.latest_seq c ≡ answer (below_lower_bound key c.entries)
unfolding get_predecessor answer
get_predecessor-answer key c f = ground arith

-- Asked for the newest ledger, a full cache answers with the object of the least key above `key`
-- and with that of the greatest key below `key`, and with nothing exactly where there is none.
pub neighbours_exact :
    (key : ℕ) (c : SimpleCache)
    → IsValid c
    → c.full ≡ true
    → IsSuccessor key c (get_successor key c.latest_seq c).0
      × IsPredecessor key c (get_predecessor key c.latest_seq c)
neighbours_exact key c v f = (
  rw (get_successor-answer key c f)
      (answer-IsSuccessor key c _ (upper_bound-IsNext 0 key c.entries v.ordered)),
  rw (get_predecessor-answer key c f)
      (answer-IsPredecessor key c _ (below_lower_bound-IsPrevious 0 key c.entries v.ordered)),
)

-- `get` returns a blob exactly when the cache has an entry for the key with that
-- blob and the ledger asked for lies between the entry's and the newest one.
pub get_window :
    (key seq : ℕ) (c : SimpleCache) (b : Blob)
    → ((get key seq c).0 ≡ some b) ↔ (
        (s : ℕ) × (find key c.entries ≡ some (record { seq = s; blob = b }))
        × (s ≤ seq)
        × (seq ≤ c.latest_seq))
unfolding get
get_window key seq c b = (
  (λ h. elim (Option-cases (find key c.entries)) [
    | inl e ↦ absurd (ground arith)
    | inr (x, e) ↦ (x.seq, ground arith, ground arith, ground arith)
  ]),
  (λ h. ground arith),
)
