-- ===== src/Scanner/Print/Classes/ServerHeader.antt =====
-- The header of the class of a server resource (scanner/scanner.cpp).
use waylandpp.Prelude.{true}
use waylandpp.Scanner.Text.{Text, t, endl, ◌<<◌, show_int, each}
use waylandpp.Scanner.Model.{Interface}
use waylandpp.Scanner.Print.{print_functional, print_signal_header}
use waylandpp.Scanner.Print.Request
use waylandpp.Scanner.Print.Enums

-- `interface_t::print_server_header`
unfoldable pub print_server_header : Interface → Text
print_server_header i =
    t "/** \\brief "
    << i.summary
    << endl
    << i.description
    << endl
    << t "*/"
    << endl
    << t "class "
    << i.name
    << t "_t : public resource_t"
    << endl
    << t "{"
    << endl
    << t "private:"
    << endl
    << t "  struct events_t : public resource_t::events_base_t"
    << endl
    << t "  {"
    << endl
    << each (λ r. print_functional true r << endl) i.requests
    << t "  };"
    << endl
    << endl
    << t
        "  static int dispatcher(int opcode, const std::vector<wayland::detail::any>& args, const std::shared_ptr<resource_t::events_base_t>& e);"
    << endl
    << endl
    << t "protected:"
    << endl
    << t "  static constexpr const wl_interface *interface = &wayland::server::detail::"
    << i.name
    << t "_interface;"
    << endl
    << t "  static constexpr const unsigned int max_version = "
    << show_int i.version
    << t ";"
    << endl
    << endl
    << t "  friend class global_t<"
    << i.name
    << t "_t>;"
    << endl
    << t "  friend class global_base_t;"
    << endl
    << endl
    << t "public:"
    << endl
    << t "  "
    << i.name
    << t "_t() = default;"
    << endl
    << t "  "
    << i.name
    << t "_t(const client_t& client, uint32_t id, int version = "
    << show_int i.version
    << t ");"
    << endl
    << t "  "
    << i.name
    << t "_t(const resource_t &resource);"
    << endl
    << endl
    << t "  static const std::string interface_name;"
    << endl
    << endl
    << t "  static const uint32_t interface_version;"
    << endl
    << endl
    << t "  operator "
    << i.orig_name
    << t "*() const;"
    << endl
    << endl
    << each (λ r. print_signal_header true r << endl) i.requests
    << each (λ e. Request.print_header true e << endl) i.events
    << each (λ e. Enums.print_error_header e << endl) i.errors
    << t "};"
    << endl
    << endl
    << t "using global_"
    << i.name
    << t "_t = global_t<"
    << i.name
    << t "_t>;"
    << endl
    << endl
    << each (λ e. Enums.print_header e i.name << endl) i.enums
