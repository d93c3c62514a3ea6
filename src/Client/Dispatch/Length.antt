-- ===== src/Client/Dispatch/Length.antt =====
-- How many arguments a printed signature stands for, against the table of interfaces that is printed
-- with it: `print_interface_body` of scanner/scanner.cpp.
use waylandpp.Prelude.{
  ℕ, ◌+◌, ◌*◌, ◌≡◌, refl, List, [], ◌∷◌, length, length-append, if◌then◌else◌, arith,
}
use waylandpp.Client.Dispatch.Decode.{slots}
use waylandpp.Client.Dispatch.Signature.{slots_append, slots_since}
use waylandpp.Scanner.Text.{show_int, t, each}
use waylandpp.Scanner.Model.{Argument, Event}
use waylandpp.Scanner.Print.{print_short, is_later}
use waylandpp.Scanner.Print.Request.{is_untyped}
use waylandpp.Scanner.Print.Tables.{print_slot, print_signature}

-- The new objects whose interface the client names
unfoldable pub untyped : List Argument → ℕ
untyped [] = 0
untyped (a ∷ args) = (if is_untyped a then 1 else 0) + untyped args

short_length : (a : Argument) → length (slots (print_short a)) ≡ 1
unfolding print_short slots t
short_length a = ground arith

slot_length : (a : Argument) → length (slots (print_slot a)) ≡ 1 + (if is_untyped a then 2 else 0)
unfolding print_slot slots t
slot_length a = ground (arith, short_length a)

length-slots :
    (args : List Argument) → length (slots (each print_slot args)) ≡ length args + 2 * untyped args
unfolding each untyped slots
length-slots [] = refl
length-slots (a ∷ args) =
    rw
      (
        slots_append (print_slot a) (each print_slot args),
        length-append (slots (print_slot a)) (slots (each print_slot args)),
      )
      (ground (arith, slot_length a, length-slots args))

-- The signature of a message stands for one argument for each argument of the message, and for two
-- more for each new object without interface; the table of interfaces has no entries for these two.
pub signature_length :
    (e : Event) → length (slots (print_signature e)) ≡ length e.args + 2 * untyped e.args
unfolding print_signature
signature_length e =
    rw
      (
        slots_append (if is_later e.since then show_int e.since else []) (each print_slot e.args),
        slots_since e.since,
      )
      (length-slots e.args)
