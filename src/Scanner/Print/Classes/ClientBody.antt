-- ===== src/Scanner/Print/Classes/ClientBody.antt =====
-- The methods of the class of a client proxy (scanner/scanner.cpp).
use waylandpp.Prelude.{List, [], ◌∷◌, false, Option, some}
use waylandpp.Scanner.Text.{Text, t, endl, ◌<<◌, each}
use waylandpp.Scanner.Model.{Event, Interface}
use waylandpp.Scanner.Print.{print_signal_body}
use waylandpp.Scanner.Print.Request
use waylandpp.Scanner.Print.Enums
use waylandpp.Scanner.Print.Classes.{
  ◌<<?◌, without_destroy, print_switch, set_events, set_interface,
}

-- The loop over the requests, which prints their methods
unfoldable pub print_requests : Text → List Event → Option Text
print_requests name [] = some []
print_requests name (r ∷ rs) =
    Request.print_body name false r <<? some (endl << endl) <<? print_requests name rs

-- `interface_t::print_client_body`
unfoldable pub print_client_body : Interface → Option Text
unfolding print_requests set_events set_interface without_destroy
print_client_body i =
    some (
      i.name
      << t "_t::"
      << i.name
      << t "_t(const proxy_t &p)"
      << endl
      << t "  : proxy_t(p)"
      << endl
      << t "{"
      << endl
      << set_events i
      << set_interface i
      << t "}"
      << endl
      << endl
      << i.name
      << t "_t::"
      << i.name
      << t "_t()"
      << endl
      << t "{"
      << endl
      << set_interface i
      << t "}"
      << endl
      << endl
      << i.name
      << t "_t::"
      << i.name
      << t "_t("
      << i.orig_name
      << t " *p, wrapper_type t)"
      << endl
      << t "  : proxy_t(reinterpret_cast<wl_proxy*> (p), t)"
      << t "{"
      << endl
      << set_events i
      << set_interface i
      << t "}"
      << endl
      << endl
      << i.name
      << t "_t::"
      << i.name
      << t "_t(proxy_t const &wrapped_proxy, construct_proxy_wrapper_tag /*unused*/)"
      << endl
      << t "  : proxy_t(wrapped_proxy, construct_proxy_wrapper_tag())"
      << t "{"
      << endl
      << set_interface i
      << t "}"
      << endl
      << endl
      << i.name
      << t "_t "
      << i.name
      << t "_t::proxy_create_wrapper()"
      << endl
      << t "{"
      << endl
      << t "  return {*this, construct_proxy_wrapper_tag()};"
      << endl
      << t "}"
      << endl
      << endl
      << t "const std::string "
      << i.name
      << t "_t::interface_name = \""
      << i.orig_name
      << t "\";"
      << endl
      << endl
      << t "const uint32_t "
      << i.name
      << t "_t::interface_version = static_cast<uint32_t>("
      << i.name
      << t "_interface.version);"
      << endl
      << endl
      << i.name
      << t "_t::operator "
      << i.orig_name
      << t "*() const"
      << endl
      << t "{"
      << endl
      << t "  return reinterpret_cast<"
      << i.orig_name
      << t "*> (c_ptr());"
      << endl
      << t "}"
      << endl
      << endl)
    <<? print_requests i.name (without_destroy i.requests)
    <<? some (each (λ e. print_signal_body i.name false e << endl) i.events)
    <<? some (
        t "int "
        << i.name
        << t
            "_t::dispatcher(uint32_t opcode, const std::vector<any>& args, const std::shared_ptr<detail::events_base_t>& e)"
        << endl
        << t "{"
        << endl)
    <<? print_switch false i.events
    <<? some (
        t "  return 0;"
        << endl
        << t "}"
        << endl
        << each (λ e. Enums.print_body e i.name << endl) i.enums)
