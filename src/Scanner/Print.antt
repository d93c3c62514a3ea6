-- ===== src/Scanner/Print.antt =====
-- The text that the scanner prints for arguments and messages (scanner/scanner.cpp). `none` stands for
-- the exception of `print_enum_wire_type`.
pub mod Request
pub mod Enums
pub mod Classes
pub mod Tables
use waylandpp.Prelude.{
  ℕ, suc, ◌+◌, ◌-◌, Bool, true, false, not, ◌&&◌, ◌||◌, Option, none, some, List, [], ◌∷◌, ◌++◌,
  ◌==◌, ltb, if◌then◌else◌, length,
}
use waylandpp.Prelude.Int.{ℤ, pos, negsuc}
use waylandpp.Scanner.Text.{
  Text, t, endl, ◌<<◌, text_eq, is_empty, no_items, cut_two, show, show_int, each, drop,
}
use waylandpp.Scanner.Model.{Argument, Event}
use waylandpp.Scanner.Names.{sanitise}

abbrev pub is_type : Argument → Text → Bool
is_type a s = text_eq a.type s

-- `argument_t::print_enum_wire_type`
unfoldable pub print_enum_wire_type : Argument → Option Text
print_enum_wire_type a =
    if is_type a (t "int")
    then some (t "int32_t")
    else if is_type a (t "uint")
    then some (t "uint32_t")
    else none

-- `argument_t::print_type`
unfoldable pub print_type : Bool → Argument → Text
print_type server a =
    if not (is_empty a.interface)
    then a.interface << t "_t"
    else if not (is_empty a.enum_iface)
    then (if server then t "wayland::server::" else t "wayland::")
      << a.enum_iface
      << t "_"
      << a.enum_name
    else if is_type a (t "int")
    then t "int32_t"
    else if is_type a (t "uint")
    then t "uint32_t"
    else if is_type a (t "fixed")
    then t "double"
    else if is_type a (t "string")
    then t "std::string"
    else if is_type a (t "object")
    then (if server then t "resource_t" else t "proxy_t")
    else if is_type a (t "new_id")
    then (if server then t "resource_t" else t "proxy_t")
    else if is_type a (t "fd")
    then t "int"
    else if is_type a (t "array")
    then t "array_t"
    else a.type

-- `argument_t::print_short`
unfoldable pub print_short : Argument → Text
print_short a =
    if is_type a (t "int")
    then t "i"
    else if is_type a (t "uint")
    then t "u"
    else if is_type a (t "fixed")
    then t "f"
    else if is_type a (t "string")
    then t "s"
    else if is_type a (t "object")
    then t "o"
    else if is_type a (t "new_id")
    then t "n"
    else if is_type a (t "array")
    then t "a"
    else if is_type a (t "fd")
    then t "h"
    else t "x"

-- `argument_t::print_argument`
unfoldable pub print_argument : Bool → Argument → Text
unfolding print_type sanitise
print_argument server a =
    print_type server a
    << (if not (is_empty a.interface)
          || not (is_empty a.enum_iface)
          || is_type a (t "string")
          || is_type a (t "array")
        then t " const& "
        else t " ")
    << sanitise a.name

-- The list of types of a `std::function`: what is printed for each argument, the last comma cut.
unfoldable pub print_types : Bool → Text → Event → Text
unfolding print_type
print_types server before e =
    let s = before << each (λ a. print_type server a << t ", ") e.args in
    if no_items e.args then s else cut_two s

-- `event_t::print_functional`
unfoldable pub print_functional : Bool → Event → Text
unfolding print_types sanitise
print_functional server e =
    print_types server (t "    std::function<void(") e << t ")> " << sanitise e.name << t ";"

-- What stands between the brackets of `get<>()`, in the three branches of `print_dispatcher`.
unfoldable pub get_type : Bool → Argument → Option Text
unfolding print_type print_enum_wire_type
get_type server a =
    if not (is_empty a.enum_name) && not (is_type a (t "array"))
    then print_enum_wire_type a
    else if not (is_empty a.interface)
    then some (if server then t "resource_t" else t "proxy_t")
    else some (print_type server a)

-- The value of one argument, as the generated dispatcher reads it.
unfoldable pub print_get : Bool → Argument → ℕ → Option Text
unfolding get_type print_type
print_get server a c = elim (get_type server a) [
  | none ↦ none
  | some type ↦ some (
      if (not (is_empty a.enum_name) && not (is_type a (t "array"))) || not (is_empty a.interface)
      then print_type server a << t "(args[" << show c << t "].get<" << type << t ">()), "
      else t "args[" << show c << t "].get<" << type << t ">(), ")
]

unfoldable pub print_gets : Bool → List Argument → ℕ → Option Text
unfolding print_get
print_gets server [] c = some []
print_gets server (a ∷ args) c = elim (print_get server a c) [
  | none ↦ none
  | some s ↦ elim (print_gets server args (c + 1)) [ none ↦ none | some r ↦ some (s << r) ]
]

-- `event_t::print_dispatcher`
unfoldable pub print_dispatcher : ℕ → Bool → Event → Option Text
unfolding print_gets sanitise
print_dispatcher opcode server e = elim (print_gets server e.args 0) [
  | none ↦ none
  | some gets ↦
      let s =
        t "    case "
        << show opcode
        << t ":"
        << endl
        << t "      if(events->"
        << sanitise e.name
        << t ") events->"
        << sanitise e.name
        << t "("
        << gets in
      some ((if no_items e.args then s else cut_two s) << t ");" << endl << t "      break;")
]

-- `event_t::print_signal_header`
unfoldable pub print_signal_header : Bool → Event → Text
unfolding print_types
print_signal_header server e =
    let s =
      t "  /** \\brief "
      << e.summary
      << endl
      << each (λ a. t "      \\param " << a.name << t " " << a.summary << endl) e.args
      << e.description
      << endl
      << t "  */"
      << endl
      << t "  std::function<void(" in
    print_types server s e << t ")> &on_" << e.name << t "();" << endl

-- `event_t::print_signal_body`
unfoldable pub print_signal_body : Text → Bool → Event → Text
unfolding print_types sanitise
print_signal_body interface_name server e =
    print_types server (t "std::function<void(") e
    << t ")> &"
    << interface_name
    << t "_t::on_"
    << e.name
    << t "()"
    << endl
    << t "{"
    << endl
    << t "  return std::static_pointer_cast<events_t>(get_events())->"
    << sanitise e.name
    << t ";"
    << endl
    << t "}"
    << endl

-- `since > 1`
abbrev pub is_later : ℤ → Bool
is_later (pos n) = ltb 1 n
is_later (negsuc n) = false

-- `event_t::availability_function_name`
unfoldable pub availability_function_name : Event → Text
availability_function_name e = if is_later e.since then t "can_" << e.name else []

-- `event_t::since_version_constant_name`
unfoldable pub since_version_constant_name : Event → Text
since_version_constant_name e = e.name << t "_since_version"

-- `ss.str().substr(ss.str().size()-2, 2) == ", "`, for a text of two characters at least
unfoldable pub ends_in_comma : Text → Bool
ends_in_comma s = text_eq (drop (length s - 2) s) (t ", ")
