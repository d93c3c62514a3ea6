-- ===== src/Scanner/Read/Tests.antt =====
-- The theorems of the reader at a small interface, and of the command line.
use waylandpp.Prelude.{
  ℕ, zero, suc, ◌^◌, ◌≤◌, ◌<◌, ◌≡◌, refl, false, Option, none, some, List, [], ◌∷◌, ◌++◌, ◌==◌,
  if◌then◌else◌, arith, ltb,
}
use native.Mathlib.Omega.{pow_step}
use waylandpp.Prelude.Int.{ℤ, pos, negsuc}
use waylandpp.Scanner.Text.{Text, t, text_eq}
use waylandpp.Scanner.CommandLine.{
  Arg, AreOptions, parse_args, print_options, parse_args-print_options,
}
use waylandpp.Scanner.Read.{Scan, read_entries, read_interface}
use waylandpp.Scanner.Read.Ends.{Ends}
use waylandpp.Scanner.Read.Opcodes.{IsNumbered, read_interface-IsNumbered}
use waylandpp.Scanner.Read.Widths.{AllFit, IsLog2, read_entries-AllFit}

-- An interface 0 with the requests 1 and 2 and the enumeration 3, which has the entries 4 and 5
abbrev attribute : ℕ → Text → Option Text
attribute n k =
    if text_eq k (t "name")
    then some (if n == 0 then t "wl_seat" else if n == 1 then t "release" else t "pointer")
    else if text_eq k (t "value")
    then some (if n == 4 then t "0x4" else t "1")
    else none

abbrev children : ℕ → Text → List ℕ
children n k =
    if n == 0
    then (if text_eq k (t "request")
        then 1 ∷ 2 ∷ []
        else if text_eq k (t "enum")
        then 3 ∷ []
        else [])
    else if n == 3
    then (if text_eq k (t "entry") then 4 ∷ 5 ∷ [] else [])
    else []

abbrev no_text : ℕ → Text
no_text n = []

-- The logarithm of the values below 8, and a bound above
abbrev small_log2 : ℤ → ℕ
small_log2 (pos n) = if ltb n 2 then 0 else if ltb n 4 then 1 else if ltb n 8 then 2 else n
small_log2 (negsuc n) = 0

below_power : (n : ℕ) → n < 2 ^ suc n
below_power zero = omega arith
below_power (suc n) = omega (arith, below_power n, pow_step 2 (suc n))

small_log2-IsLog2 : IsLog2 small_log2
small_log2-IsLog2 v above = ground (arith, below_power v)

abbrev start : Scan
start = record { enum_id = 7; interface_names = [] }

read_interface-IsNumbered_example :
    Ends
      (read_interface attribute children no_text small_log2 0 start)
      (IsNumbered attribute children no_text small_log2 0 start)
read_interface-IsNumbered_example =
    read_interface-IsNumbered attribute children no_text small_log2 0 start

read_entries-AllFit_example :
    Ends
      (read_entries attribute children no_text small_log2 (4 ∷ 5 ∷ []) 0 start)
      (λ r u. (0 ≤ r.1) × AllFit r.1 r.0)
read_entries-AllFit_example =
    read_entries-AllFit attribute children no_text small_log2 small_log2-IsLog2 (4 ∷ 5 ∷ []) 0 start

abbrev options : List Arg
options =
    record { key = t "s"; value = t "on" } ∷ record { key = t "x"; value = t "extra.hpp" } ∷ []

options-AreOptions : AreOptions options
unfolding AreOptions t text_eq
options-AreOptions = (refl, (refl, (refl, (refl, tt))))

parse_args-print_options_example :
    parse_args false (print_options options ++ t "-a.xml" ∷ t "a.hpp" ∷ [])
    ≡ record { map = options; extra = t "-a.xml" ∷ t "a.hpp" ∷ [] }
parse_args-print_options_example =
    parse_args-print_options options (t "-a.xml") (t "a.hpp" ∷ []) options-AreOptions
