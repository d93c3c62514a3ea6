-- ===== src/Scanner/Print/Classes/Bodies.antt =====
-- When the methods of a client class cannot be printed (scanner/scanner.cpp).
use waylandpp.Prelude.{◌≡◌, refl, Bool, false, not, ◌&&◌, ◌||◌, List, [], ◌∷◌, arith}
use waylandpp.Scanner.Text.{Text, t, is_empty}
use waylandpp.Scanner.Model.{Argument, Event, Interface}
use waylandpp.Scanner.Print.{is_type, print_enum_wire_type}
use waylandpp.Scanner.Print.Request
use waylandpp.Scanner.Print.Request.{print_sent, print_all_sent}
use waylandpp.Scanner.Print.Classes.{without_destroy, print_switch}
use waylandpp.Scanner.Print.Classes.ClientBody.{print_requests, print_client_body}
use waylandpp.Scanner.Print.Classes.Refusals.{is_none, some_refused, cases_refused}

-- An argument with an enumeration that the method cannot cast to a type of the wire
abbrev pub is_unsendable : Argument → Bool
is_unsendable a =
    not (is_type a (t "new_id"))
    && (not (is_type a (t "fd"))
        && (not (is_type a (t "object"))
            && (not (is_empty a.enum_name)
                && (not (is_type a (t "int")) && not (is_type a (t "uint"))))))

unfoldable pub has_unsendable : List Argument → Bool
has_unsendable [] = false
has_unsendable (a ∷ args) = is_unsendable a || has_unsendable args

unfoldable pub some_unsendable : List Event → Bool
some_unsendable [] = false
some_unsendable (r ∷ rs) = has_unsendable r.args || some_unsendable rs

sent_refused : (a : Argument) → is_none (print_sent a) ≡ is_unsendable a
unfolding print_sent print_enum_wire_type
sent_refused a = ground arith

all_sent_refused : (args : List Argument) → is_none (print_all_sent args) ≡ has_unsendable args
unfolding print_all_sent has_unsendable
all_sent_refused [] = refl
all_sent_refused (a ∷ args) = ground (arith, sent_refused a, all_sent_refused args)

body_refused :
    (name : Text) (server : Bool) (r : Event)
    → is_none (Request.print_body name server r) ≡ has_unsendable r.args
unfolding Request.print_body
body_refused name server r = ground (arith, all_sent_refused r.args)

requests_refused :
    (name : Text) (rs : List Event) → is_none (print_requests name rs) ≡ some_unsendable rs
unfolding print_requests some_unsendable
requests_refused name [] = refl
requests_refused name (r ∷ rs) = ground (arith, body_refused name false r, requests_refused name rs)

switch_refused : (es : List Event) → is_none (print_switch false es) ≡ some_refused es
unfolding print_switch some_refused
switch_refused [] = refl
switch_refused (e ∷ es) = ground (arith, cases_refused false 0 (e ∷ es))

-- The methods of a client class cannot be printed exactly if a request other than `destroy` has an
-- argument with an enumeration that cannot be cast to a type of the wire, or some event has an
-- argument with an enumeration whose type is neither `int` nor `uint` nor `array`.
pub client_body_refused :
    (i : Interface)
    → is_none (print_client_body i)
      ≡ (some_unsendable (without_destroy i.requests) || some_refused i.events)
unfolding print_client_body
client_body_refused i =
    ground (arith, requests_refused i.name (without_destroy i.requests), switch_refused i.events)
