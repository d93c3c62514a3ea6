-- ===== src/Scanner/Print/Classes.antt =====
-- The classes that the scanner prints for an interface (scanner/scanner.cpp). `none` stands for the
-- exception of `print_enum_wire_type`.
pub mod ClientHeader
pub mod ServerHeader
pub mod ClientBody
pub mod ServerBody
pub mod Refusals
pub mod Bodies
use waylandpp.Prelude.{
  ℕ, ◌+◌, Bool, true, false, Option, none, some, List, [], ◌∷◌, ◌==◌, if◌then◌else◌,
}
use waylandpp.Prelude.Int.{pos, negsuc}
use waylandpp.Scanner.Text.{Text, t, endl, ◌<<◌, text_eq, no_items, show_int, each}
use waylandpp.Scanner.Model.{Event, Interface}
use waylandpp.Scanner.Print.{
  print_functional, print_dispatcher, print_signal_header, print_signal_body,
}
use waylandpp.Scanner.Print.Request
use waylandpp.Scanner.Print.Enums

-- `ss << text` where one of the two may not have been printed
infixl 65 ◌<<?◌
abbrev pub ◌<<?◌ : Option Text → Option Text → Option Text
◌<<?◌ none b = none
◌<<?◌ (some a) b = elim b [ none ↦ none | some c ↦ some (a << c) ]

-- `for(x : xs) ss << f(x)` where `f` may throw
unfoldable pub each? {ℓ} : {A : Type ℓ} → (A → Option Text) → List A → Option Text
each? f [] = some []
each? f (x ∷ xs) = f x <<? each? f xs

-- `interface_t::print_forward`
unfoldable pub print_forward : Interface → Text
print_forward i =
    t "class " << i.name << t "_t;" << endl << each (λ e. Enums.print_forward e i.name) i.enums

-- `interface_t::print_c_forward`
unfoldable pub print_c_forward : Interface → Text
print_c_forward i = t "struct " << i.orig_name << t ";" << endl

-- All requests but `destroy`.
unfoldable pub without_destroy : List Event → List Event
without_destroy [] = []
without_destroy (r ∷ rs) =
    if text_eq r.name (t "destroy") then without_destroy rs else r ∷ without_destroy rs

-- `interface_t::print_interface_header`
unfoldable pub print_interface_header : Interface → Text
print_interface_header i = t "  extern const wl_interface " << i.name << t "_interface;" << endl

-- The cases of a generated dispatcher: the messages in their order, numbered from `opcode`.
unfoldable pub print_cases : Bool → ℕ → List Event → Option Text
unfolding print_dispatcher
print_cases server opcode [] = some []
print_cases server opcode (e ∷ es) =
    print_dispatcher opcode server e <<? some endl <<? print_cases server (opcode + 1) es

-- The switch of a generated dispatcher; there is none without messages.
unfoldable pub print_switch : Bool → List Event → Option Text
unfolding print_cases
print_switch server es =
    if no_items es
    then some []
    else some (
        t "  std::shared_ptr<events_t> events = std::static_pointer_cast<events_t>(e);"
        << endl
        << t "  switch(opcode)"
        << endl
        << t "    {"
        << endl)
      <<? print_cases server 0 es
      <<? some (t "    }" << endl)

-- The stream `set_events` of `print_client_body`; -1 is the opcode of no request.
unfoldable pub set_events : Interface → Text
set_events i =
    t "  if(proxy_has_object() && get_wrapper_type() == wrapper_type::standard)"
    << endl
    << t "    {"
    << endl
    << t "      set_events(std::shared_ptr<detail::events_base_t>(new events_t), dispatcher);"
    << endl
    << elim i.destroy_opcode [
      | pos n ↦ t "      set_destroy_opcode(" << show_int i.destroy_opcode << t "U);" << endl
      | negsuc n ↦
          if n == 0
          then []
          else t "      set_destroy_opcode(" << show_int i.destroy_opcode << t "U);" << endl
    ]
    << t "    }"
    << endl

-- The stream `set_interface` of `print_client_body`
unfoldable pub set_interface : Interface → Text
set_interface i =
    t "  set_interface(&"
    << i.name
    << t "_interface);"
    << endl
    << t "  set_copy_constructor([] (const proxy_t &p) -> proxy_t"
    << endl
    << t "    { return "
    << i.name
    << t "_t(p); });"
    << endl
