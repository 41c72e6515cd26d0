-- ===== src/Cache/Tests.antt =====
-- The cache on small inputs (src/backend/SimpleCache.cpp).
use clio_migrator.Prelude.{
  ℕ, ◌≤◌, ◌≡◌, ◌↔◌, refl, List, [], ◌∷◌, true, false, none, some, arith, ◌==◌, if◌then◌else◌,
}
use clio_migrator.Types.{Blob, LedgerObject}
use clio_migrator.Cache.{
  SimpleCache, fresh, update_object, update_objects, advance, update, newest, get, get_successor,
  get_predecessor, set_full,
}
use clio_migrator.Cache.Sorted.{find, put, erase, upper_bound, below_lower_bound}
use clio_migrator.Cache.Invariant.{
  IsValid, Call, updates, sets_full, run, step, run-IsValid, IsSuccessor, IsPredecessor,
  neighbours_exact, get_window,
}
use clio_migrator.Cache.Background.{Batch, load, fate, is_loaded, expected, untouched}
use clio_migrator.Cache.Background.Merge.{load-merges}

program : Unit {0}
unfolding find put erase upper_bound below_lower_bound update_object update_objects advance update
    newest get get_successor get_predecessor set_full run step load fate is_loaded
program = tt

abbrev two_objects : List LedgerObject
two_objects = record { key = 3; blob = 7 ∷ [] } ∷ record { key = 9; blob = 8 ∷ [] } ∷ []

abbrev loaded : List Call
loaded = updates two_objects 5 false ∷ sets_full ∷ []

abbrev loaded_cache : SimpleCache
loaded_cache = run fresh loaded

successor_of_three : (get_successor 3 5 loaded_cache).0 ≡ some (record { key = 9; blob = 8 ∷ [] })
unfolding program
successor_of_three = refl

get_stale : (get 3 4 loaded_cache).0 ≡ none
unfolding program
get_stale = refl

run-IsValid_example : IsValid loaded_cache
run-IsValid_example = run-IsValid loaded

neighbours_exact_example :
    IsSuccessor 4 loaded_cache (get_successor 4 loaded_cache.latest_seq loaded_cache).0
    × IsPredecessor 4 loaded_cache (get_predecessor 4 loaded_cache.latest_seq loaded_cache)
unfolding program
neighbours_exact_example = neighbours_exact 4 loaded_cache (run-IsValid loaded) refl

get_window_example : ((get 3 6 loaded_cache).0 ≡ some (7 ∷ [])) ↔ (
    (s : ℕ) × (find 3 loaded_cache.entries ≡ some (record { seq = s; blob = 7 ∷ [] }))
    × (s ≤ 6)
    × (6 ≤ loaded_cache.latest_seq))
get_window_example = get_window 3 6 loaded_cache (7 ∷ [])

-- Ledger 6 deletes key 3 before the background thread brings it in from ledger 5.
abbrev schedule : List Batch
schedule =
    record { objects = record { key = 3; blob = [] } ∷ []; seq = 6; is_background = false }
    ∷ record { objects = two_objects; seq = 5; is_background = true }
    ∷ []

abbrev ledger_five : ℕ → Blob
ledger_five k = if k == 3 then 7 ∷ [] else 8 ∷ []

deleted_stays_deleted : find 3 (load fresh schedule).entries ≡ none
unfolding program
deleted_stays_deleted = refl

load-merges_example :
    find 3 (load fresh schedule).entries
    ≡ expected 5 (ledger_five 3) (fate 3 untouched schedule) (is_loaded 3 false schedule)
load-merges_example = load-merges 5 ledger_five schedule 3 (omega arith) (
  (tt, tt),
  (λ e. cc),
  (λ e. omega arith),
  (((omega arith, tt), (tt, tt)), (λ e. (refl, ((refl, refl), ((refl, refl), tt)))), (λ e. cc), tt),
)
