-- ===== src/Scanner/Print/Classes/Refusals.antt =====
-- When the scanner throws "Enum type must be int or uint" (scanner/scanner.cpp).
use waylandpp.Prelude.{
  ℕ, ◌+◌, ◌≡◌, refl, Bool, true, false, not, ◌&&◌, ◌||◌, Option, none, some, List, [], ◌∷◌, arith,
}
use waylandpp.Scanner.Text.{t, is_empty}
use waylandpp.Scanner.Model.{Argument, Event}
use waylandpp.Scanner.Print.{
  is_type, print_enum_wire_type, get_type, print_get, print_gets, print_dispatcher,
}
use waylandpp.Scanner.Print.Classes.{print_cases}

-- An argument with an enumeration that is neither an integer nor an array
abbrev pub is_refused : Argument → Bool
is_refused a =
    not (is_empty a.enum_name)
    && (not (is_type a (t "array")) && (not (is_type a (t "int")) && not (is_type a (t "uint"))))

unfoldable pub has_refused : List Argument → Bool
has_refused [] = false
has_refused (a ∷ args) = is_refused a || has_refused args

unfoldable pub some_refused : List Event → Bool
some_refused [] = false
some_refused (e ∷ es) = has_refused e.args || some_refused es

abbrev pub is_none {ℓ} : {A : Type ℓ} → Option A → Bool
is_none none = true
is_none (some a) = false

get_refused : (server : Bool) (a : Argument) (c : ℕ) → is_none (print_get server a c) ≡ is_refused a
unfolding print_get get_type print_enum_wire_type
get_refused server a c = ground arith

gets_refused :
    (server : Bool) (args : List Argument) (c : ℕ)
    → is_none (print_gets server args c) ≡ has_refused args
unfolding print_gets has_refused
gets_refused server [] c = refl
gets_refused server (a ∷ args) c =
    ground (arith, get_refused server a c, gets_refused server args (c + 1))

dispatcher_refused :
    (opcode : ℕ) (server : Bool) (e : Event)
    → is_none (print_dispatcher opcode server e) ≡ has_refused e.args
unfolding print_dispatcher
dispatcher_refused opcode server e = ground (arith, gets_refused server e.args 0)

-- The switch of a dispatcher cannot be printed exactly if some message has an argument with an
-- enumeration whose type is neither `int` nor `uint` nor `array`.
pub cases_refused :
    (server : Bool) (opcode : ℕ) (es : List Event)
    → is_none (print_cases server opcode es) ≡ some_refused es
unfolding print_cases some_refused
cases_refused server opcode [] = refl
cases_refused server opcode (e ∷ es) =
    ground (arith, dispatcher_refused opcode server e, cases_refused server (opcode + 1) es)
