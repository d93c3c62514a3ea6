-- ===== src/Scanner/Print/Enums.antt =====
-- The enumerations and errors that the scanner prints (scanner/scanner.cpp).
use waylandpp.Prelude.{not, [], if◌then◌else◌}
use waylandpp.Scanner.Text.{Text, t, endl, ◌<<◌, is_empty, cut_two, show, each}
use waylandpp.Scanner.Model.{EnumEntry, Enumeration, PostError}
use waylandpp.Scanner.Names.{sanitise}

-- `enumeration_t::print_forward`
unfoldable pub print_forward : Enumeration → Text → Text
print_forward e iface_name =
    if not e.bitfield
    then t "enum class " << iface_name << t "_" << e.name << t " : uint32_t;" << endl
    else t "struct " << iface_name << t "_" << e.name << t ";" << endl

-- The start of the declaration: the first test of `enumeration_t::print_header`.
unfoldable pub print_opening : Enumeration → Text → Text
print_opening e iface_name =
    if not e.bitfield
    then t "enum class "
      << iface_name
      << t "_"
      << e.name
      << t " : uint32_t"
      << endl
      << t "  {"
      << endl
    else t "struct "
      << iface_name
      << t "_"
      << e.name
      << t " : public wayland::detail::bitfield<"
      << show e.width
      << t ", "
      << show e.id
      << t ">"
      << endl
      << t "{"
      << endl
      << t "  "
      << iface_name
      << t "_"
      << e.name
      << t "(const wayland::detail::bitfield<"
      << show e.width
      << t ", "
      << show e.id
      << t "> &b)"
      << endl
      << t "    : wayland::detail::bitfield<"
      << show e.width
      << t ", "
      << show e.id
      << t ">(b) {}"
      << endl
      << t "  "
      << iface_name
      << t "_"
      << e.name
      << t "(const uint32_t value)"
      << endl
      << t "    : wayland::detail::bitfield<"
      << show e.width
      << t ", "
      << show e.id
      << t ">(value) {}"
      << endl

-- One entry, in the loop of `enumeration_t::print_header`
unfoldable pub print_entry : Enumeration → EnumEntry → Text
print_entry e x =
    (if not (is_empty x.summary) then t "  /** \\brief " << x.summary << t " */" << endl else [])
    << (if not e.bitfield
        then t "  " << sanitise x.name << t " = " << x.value << t "," << endl
        else t "  static const wayland::detail::bitfield<"
          << show e.width
          << t ", "
          << show e.id
          << t "> "
          << sanitise x.name
          << t ";"
          << endl)

-- `enumeration_t::print_header`
unfoldable pub print_header : Enumeration → Text → Text
unfolding print_opening print_entry
print_header e iface_name =
    let s =
      t "/** \\brief "
      << e.summary
      << endl
      << e.description
      << endl
      << t "  */"
      << endl
      << print_opening e iface_name
      << each (print_entry e) e.entries in
    (if not e.bitfield then cut_two s << endl else s) << t "};" << endl

-- `enumeration_t::print_body`
unfoldable pub print_body : Enumeration → Text → Text
print_body e iface_name =
    if e.bitfield
    then each
        (λ x.
          t "const bitfield<"
          << show e.width
          << t ", "
          << show e.id
          << t "> "
          << iface_name
          << t "_"
          << e.name
          << t "::"
          << sanitise x.name
          << t "{"
          << x.value
          << t "};"
          << endl)
        e.entries
    else []

-- `post_error_t::print_server_header`
unfoldable pub print_error_header : PostError → Text
print_error_header e =
    t "  /** \\brief Post error: "
    << e.summary
    << endl
    << (if not (is_empty e.description) then t "  " << e.description << endl else [])
    << t "  */"
    << endl
    << t "  void post_"
    << e.name
    << t "(std::string const& msg);"
    << endl

-- `post_error_t::print_server_body`
unfoldable pub print_error_body : PostError → Text → Text
print_error_body e iface_name =
    t "void "
    << iface_name
    << t "_t::post_"
    << e.name
    << t "(std::string const& msg)"
    << endl
    << t "{"
    << endl
    << t "  post_error(static_cast<uint32_t>("
    << iface_name
    << t "_error::"
    << sanitise e.name
    << t "), msg);"
    << endl
    << t "}"
    << endl
