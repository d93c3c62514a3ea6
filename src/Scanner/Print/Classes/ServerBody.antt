-- ===== src/Scanner/Print/Classes/ServerBody.antt =====
-- The methods of the class of a server resource (scanner/scanner.cpp).
use waylandpp.Prelude.{true, Option, some}
use waylandpp.Scanner.Text.{Text, t, endl, ◌<<◌, each}
use waylandpp.Scanner.Model.{Interface}
use waylandpp.Scanner.Print.{print_signal_body}
use waylandpp.Scanner.Print.Request
use waylandpp.Scanner.Print.Enums
use waylandpp.Scanner.Print.Classes.{◌<<?◌, each?, print_switch}

-- `interface_t::print_server_body`
unfoldable pub print_server_body : Interface → Option Text
print_server_body i =
    some (
      i.name
      << t "_t::"
      << i.name
      << t "_t(const client_t& client, uint32_t id, int version)"
      << endl
      << t "  : resource_t(client, &server::detail::"
      << i.name
      << t "_interface, id, version)"
      << endl
      << t "{"
      << endl
      << t "  set_events(std::shared_ptr<resource_t::events_base_t>(new events_t), dispatcher);"
      << endl
      << t "}"
      << endl
      << endl
      << i.name
      << t "_t::"
      << i.name
      << t "_t(const resource_t &resource)"
      << endl
      << t "  : resource_t(resource)"
      << endl
      << t "{"
      << endl
      << t "  set_events(std::shared_ptr<resource_t::events_base_t>(new events_t), dispatcher);"
      << endl
      << t "}"
      << endl
      << endl
      << t "const std::string "
      << i.name
      << t "_t::interface_name = \""
      << i.orig_name
      << t "\";"
      << endl
      << endl
      << t "const uint32_t "
      << i.name
      << t "_t::interface_version = static_cast<uint32_t>("
      << i.name
      << t "_interface.version);"
      << endl
      << endl
      << i.name
      << t "_t::operator "
      << i.orig_name
      << t "*() const"
      << endl
      << t "{"
      << endl
      << t "  return reinterpret_cast<"
      << i.orig_name
      << t "*> (c_ptr());"
      << endl
      << t "}"
      << endl
      << endl
      << each (λ r. print_signal_body i.name true r << endl << endl) i.requests)
    <<? each? (λ e. Request.print_body i.name true e <<? some endl) i.events
    <<? some (
        each (λ e. Enums.print_error_body e i.name << endl) i.errors
        << t "int "
        << i.name
        << t
            "_t::dispatcher(int opcode, const std::vector<any>& args, const std::shared_ptr<resource_t::events_base_t>& e)"
        << endl
        << t "{"
        << endl)
    <<? print_switch true i.requests
    <<? some (
        t "  return 0;"
        << endl
        << t "}"
        << endl
        << each (λ e. Enums.print_body e i.name << endl) i.enums)
