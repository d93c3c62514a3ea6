-- ===== src/Scanner/Tests.antt =====
-- The files of the scanner for a description with one interface.
use waylandpp.Prelude.{◌≡◌, refl, true, some, [], ◌∷◌}
use waylandpp.Prelude.Int.{pos, negsuc}
use waylandpp.Scanner.Text.{Text, t, text_eq, endl, ◌<<◌, each}
use waylandpp.Scanner.Model.{Interface}
use waylandpp.Scanner.Print.Classes.{each?}
use waylandpp.Scanner.Print.Tables.{print_interface_body}
use waylandpp.Scanner.Files.{without_display, print_hpp, print_cpp_intro, print_cpp}
use waylandpp.Scanner.Main.{hpp_contents, cpp_contents}
use waylandpp.Scanner.Main.Streams.{contents_lem}

-- `wl_display`, whose class is written by hand
abbrev display : Interface
display = record {
  name = t "display";
  summary = [];
  description = [];
  version = pos 1;
  orig_name = t "wl_display";
  destroy_opcode = negsuc 0;
  requests = [];
  events = [];
  enums = [];
  errors = [];
}

abbrev cpp : Text
cpp =
    print_cpp_intro true (t "out/a.hpp")
    << each (print_interface_body true) (display ∷ [])
    << []
    << endl

display_prints : print_cpp true (t "out/a.hpp") (display ∷ []) ≡ some cpp
unfolding print_cpp without_display text_eq t each?
display_prints = refl

contents_lem_example :
    (hpp_contents true [] (display ∷ []) ≡ print_hpp true [] (display ∷ []))
    × (cpp_contents true (t "out/a.hpp") cpp ≡ cpp)
contents_lem_example = contents_lem true [] (t "out/a.hpp") (display ∷ []) cpp display_prints
