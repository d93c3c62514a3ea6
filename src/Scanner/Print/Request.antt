-- ===== src/Scanner/Print/Request.antt =====
-- The declarations and definitions of the methods that send a message (scanner/scanner.cpp).
use waylandpp.Prelude.{
  Bool, false, not, Option, none, some, List, [], ◌∷◌, ◌&&◌, ◌||◌, if◌then◌else◌,
}
use waylandpp.Scanner.Text.{Text, t, endl, ◌<<◌, is_empty, cut_two, show, show_int, each}
use waylandpp.Scanner.Model.{Argument, Event}
use waylandpp.Scanner.Names.{sanitise}
use waylandpp.Scanner.Print.{
  is_type, print_enum_wire_type, print_type, print_argument, availability_function_name,
  since_version_constant_name, ends_in_comma,
}

-- An argument of type `new_id` without an interface
abbrev pub is_untyped : Argument → Bool
is_untyped a = is_type a (t "new_id") && is_empty a.interface

-- The parameters of the method, the same in the declaration and in the definition
unfoldable pub print_parameter : Bool → Argument → Text
print_parameter server a =
    if is_type a (t "new_id")
    then (if is_empty a.interface then t "proxy_t &interface, uint32_t version, " else [])
    else print_argument server a << t ", "

-- The documentation of one argument
unfoldable pub print_param_doc : Argument → Text
print_param_doc a =
    if is_type a (t "new_id")
    then (if is_empty a.interface
        then t "      \\param interface Interface to bind"
          << endl
          << t "      \\param version Interface version"
          << endl
        else [])
    else t "      \\param " << sanitise a.name << t " " << a.summary << endl

-- The result type
unfoldable pub print_result : Bool → Event → Text
print_result server e =
    if is_empty e.ret.name || server then t "void " else print_type server e.ret << t " "

unfoldable pub cut_comma : Text → Text
cut_comma s = if ends_in_comma s then cut_two s else s

-- `event_t::print_header`
unfoldable pub print_header : Bool → Event → Text
unfolding print_parameter print_param_doc print_result cut_comma
print_header server e =
    let s =
      t "  /** \\brief "
      << e.summary
      << endl
      << (if not (is_empty e.ret.summary) then t "      \\return " << e.ret.summary << endl else [])
      << each print_param_doc e.args
      << e.description
      << endl
      << t "  */"
      << endl
      << t "  "
      << print_result server e
      << sanitise e.name
      << t "("
      << each (print_parameter server) e.args
      << (if server then t "bool post = true" else []) in
    cut_comma s
    << t ");"
    << endl
    << endl
    << t "  /** \\brief Minimum protocol version required for the \\ref "
    << sanitise e.name
    << t " function"
    << endl
    << t "  */"
    << endl
    << t "  static constexpr std::uint32_t "
    << since_version_constant_name e
    << t " = "
    << show_int e.since
    << t ";"
    << endl
    << (if not (is_empty (availability_function_name e))
        then endl
          << t "  /** \\brief Check whether the \\ref "
          << e.name
          << t " function is available with"
          << endl
          << t "      the currently bound version of the protocol"
          << endl
          << t "  */"
          << endl
          << t "  bool "
          << availability_function_name e
          << t "() const;"
          << endl
        else [])

-- One argument of the call that sends the message
unfoldable pub print_sent : Argument → Option Text
print_sent a =
    if is_type a (t "new_id")
    then some (
        (if is_empty a.interface then t "std::string(interface.interface->name), version, " else [])
        << t "nullptr, ")
    else if is_type a (t "fd")
    then some (t "argument_t::fd(" << sanitise a.name << t "), ")
    else if is_type a (t "object")
    then some (
        sanitise a.name
        << t ".proxy_has_object() ? reinterpret_cast<wl_object*>("
        << sanitise a.name
        << t ".c_ptr()) : nullptr, ")
    else if not (is_empty a.enum_name)
    then elim (print_enum_wire_type a) [
      | none ↦ none
      | some wire ↦ some (t "static_cast<" << wire << t ">(" << sanitise a.name << t "), ")
    ]
    else some (sanitise a.name << t ", ")

unfoldable pub print_all_sent : List Argument → Option Text
unfolding print_sent
print_all_sent [] = some []
print_all_sent (a ∷ args) = elim (print_sent a) [
  | none ↦ none
  | some s ↦ elim (print_all_sent args) [ none ↦ none | some r ↦ some (s << r) ]
]

-- The start of the call: how the message is sent.
unfoldable pub print_send : Bool → Event → Text
print_send server e =
    if server
    then t "  send_event(post, " << show e.opcode << t ", "
    else if is_empty e.ret.name
    then t "  marshal(" << show e.opcode << t "U, "
    else if is_empty e.ret.interface
    then t "  proxy_t p = marshal_constructor_versioned("
      << show e.opcode
      << t "U, interface.interface, version, "
    else t "  proxy_t p = marshal_constructor("
      << show e.opcode
      << t "U, &"
      << e.ret.interface
      << t "_interface, "

-- `new_id_arg`: is there an argument that names the interface of the new object?
unfoldable pub new_id_arg : List Argument → Bool
new_id_arg [] = false
new_id_arg (a ∷ args) = is_untyped a || new_id_arg args

-- The end of the method, which returns the new object
unfoldable pub print_return : Bool → Event → Text
unfolding new_id_arg
print_return server e =
    if not (is_empty e.ret.name) && not server
    then (if new_id_arg e.args
        then t "  interface = interface.copy_constructor(p);"
          << endl
          << t "  return interface;"
          << endl
        else t "  return " << print_type server e.ret << t "(p);" << endl)
    else []

-- The method that tells whether the message is available
unfoldable pub print_availability : Text → Event → Text
print_availability interface_name e =
    if not (is_empty (availability_function_name e))
    then endl
      << t "bool "
      << interface_name
      << t "_t::"
      << availability_function_name e
      << t "() const"
      << endl
      << t "{"
      << endl
      << t "  return (get_version() >= "
      << since_version_constant_name e
      << t ");"
      << endl
      << t "}"
      << endl
    else []

-- `event_t::print_body`
unfoldable pub print_body : Text → Bool → Event → Option Text
unfolding print_parameter print_result cut_comma print_all_sent print_send print_return
print_body interface_name server e =
    let head =
      print_result server e
      << interface_name
      << t "_t::"
      << sanitise e.name
      << t "("
      << each (print_parameter server) e.args
      << (if server then t "bool post" else []) in
    let opened = cut_comma head << t ")" << endl << t "{" << endl << print_send server e in
    elim (print_all_sent e.args) [
      | none ↦ none
      | some sent ↦ some (
          cut_two (opened << sent)
          << t ");"
          << endl
          << print_return server e
          << t "}"
          << endl
          << print_availability interface_name e)
    ]
