-- ===== src/Scanner/Files.antt =====
-- The two files that the scanner writes: the end of `main` (scanner/scanner.cpp).
--
-- This is what `main` writes through the first stream of each file.
use waylandpp.Prelude.{
  ◌++◌, refl, Bool-cases, inl, inr, ◌≡◌, Bool, true, false, ◌||◌, Option, some, List, [], ◌∷◌, ◌==◌,
  if◌then◌else◌,
}
use waylandpp.Scanner.Text.{Text, t, endl, ◌<<◌, text_eq, each}
use waylandpp.Scanner.Model.{Interface}
use waylandpp.Scanner.CommandLine.{Arg}
use waylandpp.Scanner.Print.Tables.{print_interface_body}
use waylandpp.Scanner.Print.Classes.{
  each?, ◌<<?◌, print_c_forward, print_forward, print_interface_header,
}
use waylandpp.Scanner.Print.Classes.ClientHeader.{print_client_header}
use waylandpp.Scanner.Print.Classes.ServerHeader.{print_server_header}
use waylandpp.Scanner.Print.Classes.ClientBody.{print_client_body}
use waylandpp.Scanner.Print.Classes.ServerBody.{print_server_body}

-- `iface.name != "display"`, for all but the class that is written by hand
unfoldable pub without_display : List Interface → List Interface
without_display [] = []
without_display (i ∷ is) =
    if text_eq i.name (t "display") then without_display is else i ∷ without_display is

unfoldable pub has_slash : Text → Bool
has_slash [] = false
has_slash (c ∷ s) = c == b'/' || has_slash s

-- What follows the last slash of a path
unfoldable pub basename : Text → Text
unfolding has_slash
basename [] = []
basename (c ∷ s) = if has_slash s then basename s else if c == b'/' then s else c ∷ s

-- The includes for the options `-x`
unfoldable pub print_extra : Arg → Text
print_extra a = if text_eq a.key (t "x") then t "#include <" << a.value << t ">" << endl else []

-- The beginning of the header file
unfoldable pub print_intro : Bool → Text
print_intro server =
    t "#pragma once"
    << endl
    << endl
    << t "#include <array>"
    << endl
    << t "#include <cstdint>"
    << endl
    << t "#include <functional>"
    << endl
    << t "#include <memory>"
    << endl
    << t "#include <string>"
    << endl
    << t "#include <vector>"
    << endl
    << endl
    << (if server then t "#include <wayland-server.hpp>" else t "#include <wayland-client.hpp>")
    << endl

-- What follows the beginning of the header file
unfoldable pub print_hpp_rest : Bool → List Arg → List Interface → Text
unfolding print_extra without_display
print_hpp_rest server options interfaces =
    each print_extra options
    << endl
    << each print_c_forward (without_display interfaces)
    << endl
    << t "namespace wayland"
    << endl
    << t "{"
    << endl
    << (if server then t "namespace server" << endl << t "{" << endl else [])
    << each print_forward (without_display interfaces)
    << endl
    << t "namespace detail"
    << endl
    << t "{"
    << endl
    << each print_interface_header interfaces
    << t "}"
    << endl
    << endl
    << each (λ i. (if server then print_server_header i else print_client_header i) << endl)
        (without_display interfaces)
    << endl
    << t "}"
    << endl
    << (if server then t "}" << endl else [])

-- The header file
unfoldable pub print_hpp : Bool → List Arg → List Interface → Text
unfolding print_intro print_hpp_rest
print_hpp server options interfaces = print_intro server << print_hpp_rest server options interfaces

-- The beginning of the source file, which includes the header file
unfoldable pub print_cpp_intro : Bool → Text → Text
unfolding basename
print_cpp_intro server hpp_file =
    t "#include <"
    << basename hpp_file
    << t ">"
    << endl
    << endl
    << t "using namespace wayland;"
    << endl
    << t "using namespace wayland::detail;"
    << endl
    << (if server
        then t "using namespace wayland::server;"
          << endl
          << t "using namespace wayland::server::detail;"
          << endl
        else [])
    << endl

-- The source file; `none` for an exception of a class
unfoldable pub print_cpp : Bool → Text → List Interface → Option Text
unfolding print_cpp_intro without_display
print_cpp server hpp_file interfaces =
    some (print_cpp_intro server hpp_file << each (print_interface_body server) interfaces)
    <<? each? (λ i. (if server then print_server_body i else print_client_body i) <<? some endl)
        (without_display interfaces)
    <<? some endl

has_slash-append : (dir name : Text) → has_slash (dir ++ b'/' ∷ name) ≡ true
unfolding has_slash
has_slash-append [] name = refl
has_slash-append (c ∷ dir) name = elim (Bool-cases (c == b'/')) [
  | inl e ↦ rw e refl
  | inr e ↦ rw (e, has_slash-append dir name) refl
]

-- A header file in a directory, whatever slashes the directory's path has, is included by its name
-- alone, if that has no slash.
pub basename_lem : (dir name : Text) → has_slash name ≡ false → basename (dir ++ b'/' ∷ name) ≡ name
unfolding basename
basename_lem [] name h = rw h refl
basename_lem (c ∷ dir) name h = rw (has_slash-append dir name, basename_lem dir name h) refl
