-- ===== src/Scanner/Print/Classes/ClientHeader.antt =====
-- The headers of the classes of an interface (scanner/scanner.cpp).
use waylandpp.Prelude.{false}
use waylandpp.Scanner.Text.{Text, t, endl, ◌<<◌, each}
use waylandpp.Scanner.Model.{Interface}
use waylandpp.Scanner.Print.{print_functional, print_signal_header}
use waylandpp.Scanner.Print.Request
use waylandpp.Scanner.Print.Enums
use waylandpp.Scanner.Print.Classes.{without_destroy}

-- `interface_t::print_client_header`
unfoldable pub print_client_header : Interface → Text
unfolding without_destroy
print_client_header i =
    t "/** \\brief "
    << i.summary
    << endl
    << i.description
    << endl
    << t "*/"
    << endl
    << t "class "
    << i.name
    << t "_t : public proxy_t"
    << endl
    << t "{"
    << endl
    << t "private:"
    << endl
    << t "  struct events_t : public detail::events_base_t"
    << endl
    << t "  {"
    << endl
    << each (λ e. print_functional false e << endl) i.events
    << t "  };"
    << endl
    << endl
    << t
        "  static int dispatcher(uint32_t opcode, const std::vector<detail::any>& args, const std::shared_ptr<detail::events_base_t>& e);"
    << endl
    << endl
    << t "  "
    << i.name
    << t "_t(proxy_t const &wrapped_proxy, construct_proxy_wrapper_tag /*unused*/);"
    << endl
    << endl
    << t "public:"
    << endl
    << t "  "
    << i.name
    << t "_t();"
    << endl
    << t "  explicit "
    << i.name
    << t "_t(const proxy_t &proxy);"
    << endl
    << t "  "
    << i.name
    << t "_t("
    << i.orig_name
    << t " *p, wrapper_type t = wrapper_type::standard);"
    << endl
    << endl
    << t "  "
    << i.name
    << t "_t proxy_create_wrapper();"
    << endl
    << endl
    << t "  static const std::string interface_name;"
    << endl
    << endl
    << t "  static const uint32_t interface_version;"
    << endl
    << endl
    << t "  operator "
    << i.orig_name
    << t "*() const;"
    << endl
    << endl
    << each (λ r. Request.print_header false r << endl) (without_destroy i.requests)
    << each (λ e. print_signal_header false e << endl) i.events
    << t "};"
    << endl
    << endl
    << each (λ e. Enums.print_header e i.name << endl) i.enums
