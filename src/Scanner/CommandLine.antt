-- ===== src/Scanner/CommandLine.antt =====
-- The command line of the scanner: `parse_args` and the choices of `main` (scanner/scanner.cpp).
use waylandpp.Prelude.{
  ◌≡◌, refl, Bool, true, false, not, ◌||◌, List, [], ◌∷◌, ◌++◌, ◌==◌, if◌then◌else◌,
}
use waylandpp.Scanner.Text.{Text, t, text_eq, drop}

-- `arg_t`
pub record Arg : Type 0 where
  pub key : Text
  pub value : Text

-- `str[0] == '-'`
abbrev pub is_option : Text → Bool
is_option [] = false
is_option (c ∷ s) = c == b'-'

-- What `parse_args` puts into `map` and into `extra`
pub record Parsed : Type 0 where
  pub map : List Arg
  pub extra : List Text

abbrev pub with_extra : Text → Parsed → Parsed
with_extra s p = record p { extra = s ∷ p.extra }

abbrev pub with_option : Text → Text → Parsed → Parsed
with_option k v p = record p { map = record { key = k; value = v } ∷ p.map }

-- `parse_args`, without the name of the program
unfoldable pub parse_args : Bool → List Text → Parsed
parse_args ends [] = record { map = []; extra = [] }
parse_args ends (s ∷ []) =
    if ends || not (is_option s)
    then record { map = []; extra = s ∷ [] }
    else if text_eq s (t "--")
    then record { map = []; extra = [] }
    else with_option (drop 1 s) [] (record { map = []; extra = [] })
parse_args ends (s ∷ v ∷ rest) =
    let next = parse_args ends (v ∷ rest) in
    let closed = parse_args true (v ∷ rest) in
    let after = parse_args ends rest in
    if ends || not (is_option s)
    then with_extra s next
    else if text_eq s (t "--")
    then closed
    else if is_option v
    then with_option (drop 1 s) [] next
    else with_option (drop 1 s) v after

-- `server` of `main`: whether there is an option `-s`
unfoldable pub is_server : List Arg → Bool
is_server [] = false
is_server (a ∷ args) = text_eq a.key (t "s") || is_server args

-- A command line from options with values and the files, with `--` before the files
unfoldable pub print_options : List Arg → List Text
print_options [] = t "--" ∷ []
print_options (a ∷ args) = (b'-' ∷ a.key) ∷ a.value ∷ print_options args

-- No key is `-`, and no value begins with a dash.
unfoldable pub AreOptions : List Arg → Type 0
AreOptions [] = Unit {0}
AreOptions (a ∷ args) =
    (text_eq a.key (t "-") ≡ false) × ((is_option a.value ≡ false) × AreOptions args)

all_extra : (files : List Text) → parse_args true files ≡ record { map = []; extra = files }
unfolding parse_args
all_extra [] = refl
all_extra (s ∷ []) = refl
all_extra (s ∷ v ∷ rest) = rw (all_extra (v ∷ rest)) refl

-- Options with values that are written out before `--` and at least one file are read back, and
-- everything after `--` is a file, whatever it begins with.
pub parse_args-print_options :
    (args : List Arg) (file : Text) (files : List Text)
    → AreOptions args
    → parse_args false (print_options args ++ file ∷ files)
      ≡ record { map = args; extra = file ∷ files }
unfolding parse_args print_options AreOptions text_eq t
parse_args-print_options [] file files h = all_extra (file ∷ files)
parse_args-print_options (a ∷ args) file files (key, (value, hs)) =
    rw (key, value, parse_args-print_options args file files hs) refl
