-- ===== src/Util/Tests.antt =====
-- The theorem of `any` at a small program: numbers with a type.
use waylandpp.Prelude.{ℕ, ◌≡◌, ◌≢◌, refl, none, List, [], ◌∷◌, arith}
use waylandpp.Prelude.Assoc.{find_key, set_key, erase_key, tally}
use waylandpp.Runtime.{ok}
use waylandpp.Util.Any.{
  State, get, load, clone, delete, construct, construct_from, copy_construct, move_construct,
  move_assign, copy_assign, assign, replace, destroy,
}
use waylandpp.Util.Any.Values.{owners, values}
use waylandpp.Util.Any.Owners.{Owned, live}
use waylandpp.Util.Any.Actions.{
  Action, empties, makes, copies, moves, assigns, move_assigns, sets, destroys, perform, Allowed,
}
use waylandpp.Util.Any.Refines.{perform_all, intended_all, AllAllowed, run-Refines}

-- A value and its type
pub record Typed : Type 0 where
  pub type : ℕ
  pub number : ℕ

abbrev type_of : Typed → ℕ
type_of v = v.type

abbrev empty : State Typed
empty = record { objs = []; heap = λ d. none; next = 1 }

empty-Owned : Owned empty
unfolding tally
empty-Owned = record { alone = λ d nz. refl; fresh = λ d above. refl; next_pos = omega arith }

abbrev int : ℕ → Typed
int n = record { type = 1; number = n }

abbrev text : ℕ → Typed
text n = record { type = 2; number = n }

-- An `any` with a number, a copy of it, which then gets a text, a move, and an assignment
abbrev program : List (Action Typed)
program =
    makes 0 (int 5)
    ∷ copies 1 0
    ∷ sets 0 (int 6)
    ∷ sets 1 (text 7)
    ∷ moves 2 1
    ∷ empties 3
    ∷ assigns 3 0
    ∷ move_assigns 3 1
    ∷ destroys 0
    ∷ destroys 1
    ∷ []

program-Allowed : AllAllowed type_of program empty
unfolding perform Allowed construct construct_from copy_construct move_construct move_assign
    copy_assign assign replace destroy delete clone get load find_key set_key erase_key
program-Allowed = (
  tt,
  (
    (1, refl),
    (
      (1, refl),
      (
        (2, refl),
        (
          ((3, refl), refl),
          (
            tt,
            (
              ((0, refl), (1, refl)),
              (((4, refl), ((0, refl), refl)), ((1, refl), ((4, refl), tt))),
            ),
          ),
        ),
      ),
    ),
  ),
)

run-Refines_example :
    (t : State Typed) × ((perform_all type_of program empty ≡ ok tt t)
      × ((values t.heap t.objs ≡ intended_all type_of program [])
          × ((d : ℕ) → d ≢ 0 → owners d t.objs ≡ live (t.heap d))))
unfolding values
run-Refines_example = run-Refines type_of program empty empty-Owned program-Allowed
