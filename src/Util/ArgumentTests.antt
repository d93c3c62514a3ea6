-- ===== src/Util/ArgumentTests.antt =====
-- The theorems of `argument_t` at one argument with an array.
use waylandpp.Prelude.{◌≡◌, refl, true, false, none, some, [], ◌∷◌, arith, ◌==◌, if◌then◌else◌}
use waylandpp.Prelude.Assoc.{find_key}
use waylandpp.Runtime.{ok, fault, and_then}
use waylandpp.Util.Argument.{State, copy_construct, move_construct, destroy}
use waylandpp.Util.Argument.Arrays.{moved_argument-faults, copied_argument_stays}

-- The argument 0 with the array at 1
abbrev one : State
one = record {
  objs = (0, record { word = 1; is_array = true }) ∷ [];
  heap = λ d. if d == 1 then some (7 ∷ 8 ∷ []) else none;
  next = 2;
}

moved_argument-faults_example :
    and_then (move_construct 5 0 one) (λ u. λ t. and_then (destroy 5 t) (λ _. destroy 0)) ≡ fault
unfolding find_key
moved_argument-faults_example = moved_argument-faults one 5 0 1 (7 ∷ 8 ∷ []) refl refl refl

copied_argument_stays_example :
    (t : State) × ((and_then (copy_construct (λ v. false) 5 0 one) (λ _. destroy 0) ≡ ok tt t)
      × ((find_key 5 t.objs ≡ some (record { word = 2; is_array = true }))
          × ((t.heap 2 ≡ some (7 ∷ 8 ∷ [])) × (t.heap 1 ≡ none))))
unfolding find_key
copied_argument_stays_example =
    copied_argument_stays one 5 0 1 (7 ∷ 8 ∷ []) refl refl refl (λ v. false) refl (omega arith)
