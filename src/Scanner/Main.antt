-- ===== src/Scanner/Main.antt =====
-- `main` of scanner/scanner.cpp: the descriptions that it reads, and the two files. In the server case `main` opens
-- each file a second time, which empties it, and writes an intro through the second stream; the first
-- stream then goes on at its own place. What a stream is given is in the file at its next `std::endl`.
pub mod Streams
use waylandpp.Prelude.{
  ℕ, zero, suc, Bool, ltb, if◌then◌else◌, Option, none, some, List, [], ◌∷◌, ◌++◌, length,
}
use waylandpp.Prelude.Int.{ℤ}
use waylandpp.Runtime.{runtime_error, M, pure, throw, ◌>>=◌, ◌>>◌}
use waylandpp.Scanner.Text.{Text, t, endl, ◌<<◌}
use waylandpp.Scanner.Model.{Interface}
use waylandpp.Scanner.CommandLine.{Arg, Parsed, parse_args, is_server}
use waylandpp.Scanner.Read.{Scan, read_interfaces}
use waylandpp.Scanner.Files.{basename, print_intro, print_hpp_rest, print_cpp}

-- A file after a stream has written a text at a place; a gap before it is filled with 0.
unfoldable pub write_at : ℕ → Text → Text → Text
write_at zero [] f = f
write_at zero (c ∷ s) [] = c ∷ s
write_at zero (c ∷ s) (x ∷ f) = c ∷ write_at zero s f
write_at (suc n) s [] = 0 ∷ write_at n s []
write_at (suc n) s (x ∷ f) = x ∷ write_at n s f

-- What the second streams write
unfoldable pub second_hpp : Text
second_hpp =
    t "#pragma once"
    << endl
    << endl
    << t "#include <array>"
    << endl
    << t "#include <cstdint>"
    << endl
    << t "#include <functional>"
    << endl
    << t "#include <memory>"
    << endl
    << t "#include <string>"
    << endl
    << t "#include <vector>"
    << endl
    << endl
    << t "#include <wayland-server.hpp>"
    << endl
    << endl

unfoldable pub second_cpp : Text → Text
unfolding basename
second_cpp hpp_file =
    t "#include <"
    << basename hpp_file
    << t ">"
    << endl
    << endl
    << t "using namespace wayland::detail;"
    << endl
    << t "using namespace wayland::server;"
    << endl
    << t "using namespace wayland::server::detail;"
    << endl
    << endl

-- The header file at the end
unfoldable pub hpp_contents : Bool → List Arg → List Interface → Text
unfolding print_intro print_hpp_rest second_hpp
hpp_contents server options interfaces =
    let first = write_at zero (print_intro server) [] in
    let second = if server then write_at zero second_hpp [] else first in
    write_at (length (print_intro server)) (print_hpp_rest server options interfaces) second

-- The source file at the end, where the first stream has written `cpp`
unfoldable pub cpp_contents : Bool → Text → Text → Text
unfolding second_cpp
cpp_contents server hpp_file cpp =
    write_at zero cpp (if server then write_at zero (second_cpp hpp_file) [] else [])

-- `extra` as the descriptions and the two files
unfoldable pub split_files : List Text → Option (List Text × (Text × Text))
split_files [] = none
split_files (a ∷ []) = none
split_files (a ∷ b ∷ []) = some ([], (a, b))
split_files (a ∷ b ∷ c ∷ rest) = elim (split_files (b ∷ c ∷ rest)) [
  | none ↦ none
  | some f ↦ some (a ∷ f.0, f.1)
]

-- How `main` ends: with the usage message, or with the two files and what is in them
pub data Exit : Type 0 where
  usage : Text → Exit
  files : (hpp_file hpp cpp_file cpp : Text) → Exit

unfoldable pub usage_text : Text → Text
usage_text program =
    t "Usage:"
    << endl
    << t "  "
    << program
    << t
        " [-s on] [-x extra_header.hpp] protocol1.xml [protocol2.xml ...] protocol.hpp protocol.cpp"
    << endl

module _ {Node : Type 0} (attribute : Node → Text → Option Text)
    (children : Node → Text → List Node) (text : Node → Text) (log2_u32 : ℤ → ℕ)
    (load : Text → List Node) where
  -- The interfaces of all descriptions, `load` giving the elements of one
  unfoldable pub read_files : List Text → M Scan (List Interface)
  unfolding read_interfaces
  read_files [] = pure []
  read_files (f ∷ fs) = do
    is ← read_interfaces attribute children text log2_u32 (load f)
    js ← read_files fs
    pure (is ++ js)

  abbrev pub write_files : Parsed → (hpp_file cpp_file : Text) → List Interface → M Scan Exit
  write_files p hpp_file cpp_file interfaces s =
      let server = is_server p.map in
      elim (print_cpp server hpp_file interfaces) [
        | none ↦ throw (runtime_error "Enum type must be int or uint") s
        | some cpp ↦
            pure
              (files hpp_file (hpp_contents server p.map interfaces) cpp_file
                (cpp_contents server hpp_file cpp))
              s
      ]

  -- `main`, without the exceptions of the operating system
  unfoldable pub main : Text → List Text → M Scan Exit
  unfolding parse_args split_files usage_text read_files
  main program args =
      let p = parse_args Bool.false args in
      if ltb (length p.extra) 3
      then pure (usage (usage_text program))
      else elim (split_files p.extra) [
        | none ↦ pure (usage (usage_text program))
        | some f ↦ do interfaces ← read_files f.0; write_files p f.1.0 f.1.1 interfaces
      ]
