-- ===== src/Scanner/Print/Tables.antt =====
-- The tables of messages that the scanner prints for libwayland (scanner/scanner.cpp): for each message
-- its name, its signature and the interfaces of its arguments.
use waylandpp.Prelude.{Bool, not, [], if◌then◌else◌, length}
use waylandpp.Scanner.Text.{Text, t, endl, ◌<<◌, is_empty, show, show_int, each}
use waylandpp.Scanner.Model.{Argument, Event, Interface}
use waylandpp.Scanner.Print.{print_short, is_later}
use waylandpp.Scanner.Print.Request.{is_untyped}

abbrev pub suffix : Bool → Text
suffix server = if server then t "_server" else []

-- What the signature holds for one argument
unfoldable pub print_slot : Argument → Text
unfolding print_short
print_slot a =
    (if a.allow_null then t "?" else []) << (if is_untyped a then t "su" else []) << print_short a

-- The signature of a message
unfoldable pub print_signature : Event → Text
unfolding print_slot
print_signature m = (if is_later m.since then show_int m.since else []) << each print_slot m.args

-- The entry of one argument in the array of interfaces
unfoldable pub print_type_entry : Argument → Text
print_type_entry a =
    if not (is_empty a.interface)
    then t "  &" << a.interface << t "_interface," << endl
    else t "  nullptr," << endl

-- The array of interfaces of a message; `kind` is `_request` or `_event`.
unfoldable pub print_types_table : Interface → Bool → Text → Event → Text
unfolding print_type_entry
print_types_table i server kind m =
    t "const wl_interface* "
    << i.name
    << t "_interface_"
    << m.name
    << kind
    << suffix server
    << t "["
    << show (length m.args)
    << t "] = {"
    << endl
    << each print_type_entry m.args
    << t "};"
    << endl
    << endl

-- The `wl_message` of a message
unfoldable pub print_message : Interface → Bool → Text → Event → Text
unfolding print_signature
print_message i server kind m =
    t "  {"
    << endl
    << t "    \""
    << m.name
    << t "\","
    << endl
    << t "    \""
    << print_signature m
    << t "\","
    << endl
    << t "    "
    << i.name
    << t "_interface_"
    << m.name
    << kind
    << suffix server
    << t ","
    << endl
    << t "  },"
    << endl

-- `interface_t::print_interface_body`
unfoldable pub print_interface_body : Bool → Interface → Text
unfolding print_types_table print_message
print_interface_body server i =
    each (print_types_table i server (t "_request")) i.requests
    << each (print_types_table i server (t "_event")) i.events
    << t "const wl_message "
    << i.name
    << t "_interface_requests"
    << suffix server
    << t "["
    << show (length i.requests)
    << t "] = {"
    << endl
    << each (print_message i server (t "_request")) i.requests
    << t "};"
    << endl
    << endl
    << t "const wl_message "
    << i.name
    << t "_interface_events"
    << suffix server
    << t "["
    << show (length i.events)
    << t "] = {"
    << endl
    << each (print_message i server (t "_event")) i.events
    << t "};"
    << endl
    << endl
    << (if server
        then t "const wl_interface wayland::server::detail::" << i.name << t "_interface =" << endl
        else t "const wl_interface wayland::detail::" << i.name << t "_interface =" << endl)
    << t "  {"
    << endl
    << t "    \""
    << i.orig_name
    << t "\","
    << endl
    << t "    "
    << show_int i.version
    << t ","
    << endl
    << t "    "
    << show (length i.requests)
    << t ","
    << endl
    << t "    "
    << i.name
    << t "_interface_requests"
    << suffix server
    << t ","
    << endl
    << t "    "
    << show (length i.events)
    << t ","
    << endl
    << t "    "
    << i.name
    << t "_interface_events"
    << suffix server
    << t ","
    << endl
    << t "  };"
    << endl
    << endl
