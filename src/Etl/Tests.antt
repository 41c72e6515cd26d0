-- ===== src/Etl/Tests.antt =====
-- Small runs of the helpers, and the theorems at them.
use clio_migrator.Prelude.{
  ℕ, ◌+◌, ◌-◌, ◌*◌, ◌/◌, ◌%◌, ◌^◌, ◌<◌, ◌≡◌, ◌≢◌, ◌↔◌, refl, List, [], ◌∷◌, ◌++◌, true, false, none,
  some, length, get_elem?, arith,
}
use clio_migrator.Etl.ThreadSafeQueue.{
  ThreadSafeQueue, push, pop, try_pop, Run, begin, pushes, pops, Bounded, fifo,
}
use clio_migrator.Etl.ValidatedLedgers
use clio_migrator.Etl.Markers.{get_markers, get_markers_lem}

abbrev of_two : List ℕ → ThreadSafeQueue ℕ
of_two queue = record { queue = queue; max_size = some 2 }

push_test : push 3 (of_two (1 ∷ 2 ∷ [])) ≡ some (of_two (1 ∷ 2 ∷ 3 ∷ []))
unfolding push
push_test = refl

full_test : push 4 (of_two (1 ∷ 2 ∷ 3 ∷ [])) ≡ none
unfolding push
full_test = refl

pop_test : pop (of_two (1 ∷ 2 ∷ 3 ∷ [])) ≡ some (1, of_two (2 ∷ 3 ∷ []))
unfolding pop try_pop
pop_test = refl

abbrev a_run : Run (of_two (1 ∷ 2 ∷ [])) (3 ∷ []) (1 ∷ []) (of_two (2 ∷ 3 ∷ []))
a_run = pops 1 (pushes 3 begin push_test refl) pop_test refl

abbrev pushed_after : List ℕ
pushed_after = 1 ∷ 2 ∷ []

abbrev popped_before : List ℕ
popped_before = 1 ∷ []

abbrev three : List ℕ
three = 3 ∷ []

abbrev two_three : List ℕ
two_three = 2 ∷ 3 ∷ []

fifo_example : (pushed_after ++ three ≡ popped_before ++ two_three) × Bounded (some 2) two_three
fifo_example =
    fifo (of_two (1 ∷ 2 ∷ [])) (of_two (2 ∷ 3 ∷ [])) (3 ∷ []) (1 ∷ []) a_run (omega arith)

validated_lem_example :
    ValidatedLedgers.IsMax
      (5 ∷ 7 ∷ 6 ∷ [])
      (ValidatedLedgers.get_most_recent (ValidatedLedgers.pushed (5 ∷ 7 ∷ 6 ∷ [])))
    × ((ValidatedLedgers.wait_until_validated_by_network 7 true
            (ValidatedLedgers.pushed (5 ∷ 7 ∷ 6 ∷ []))
          ≡ some true)
        ↔ ValidatedLedgers.IsValidated 7 (5 ∷ 7 ∷ 6 ∷ []))
    × ((ValidatedLedgers.wait_until_validated_by_network 7 false
            (ValidatedLedgers.pushed (5 ∷ 7 ∷ 6 ∷ []))
          ≡ some true)
        ↔ ValidatedLedgers.IsValidated 7 (5 ∷ 7 ∷ 6 ∷ []))
    × (ValidatedLedgers.wait_until_validated_by_network 7 false
          (ValidatedLedgers.pushed (5 ∷ 7 ∷ 6 ∷ []))
        ≢ some false)
validated_lem_example = ValidatedLedgers.validated_lem 7 (5 ∷ 7 ∷ 6 ∷ [])

get_markers_lem_example :
    (length (get_markers 3) ≡ 3)
    × (0 < 256 / 3)
    × ((i : ℕ)
        → i < 3
        → (get_elem? (get_markers 3) i ≡ some (i * (256 / 3) * 2 ^ 248)) × (i * (256 / 3) < 256))
    × ((3 - 1) * (256 / 3) + (256 / 3 + 256 % 3) ≡ 256)
get_markers_lem_example = get_markers_lem 3 (omega arith) (omega arith)
