-- ===== src/Scanner/Names.antt =====
-- Names of the generated code: keywords, prefixes (scanner/scanner.cpp).
pub mod Safe
use waylandpp.Prelude.{◌+◌, Bool, false, ◌||◌, none, some, List, [], ◌∷◌, if◌then◌else◌}
use waylandpp.Scanner.Text.{Text, t, ◌<<◌, text_eq, find, take, drop}

-- `element_t::keywords`
unfoldable pub keywords : List Text
unfolding t
keywords =
    t "alignas"
    ∷ t "alignof"
    ∷ t "and"
    ∷ t "and_eq"
    ∷ t "asm"
    ∷ t "auto"
    ∷ t "bitand"
    ∷ t "bitor"
    ∷ t "bool"
    ∷ t "break"
    ∷ t "case"
    ∷ t "catch"
    ∷ t "char"
    ∷ t "char8_t"
    ∷ t "char16_t"
    ∷ t "char32_t"
    ∷ t "class"
    ∷ t "compl"
    ∷ t "concept"
    ∷ t "const"
    ∷ t "consteval"
    ∷ t "constexpr"
    ∷ t "constinit"
    ∷ t "const_cast"
    ∷ t "continue"
    ∷ t "co_await"
    ∷ t "co_return"
    ∷ t "co_yield"
    ∷ t "decltype"
    ∷ t "default"
    ∷ t "delete"
    ∷ t "do"
    ∷ t "double"
    ∷ t "dynamic_cast"
    ∷ t "else"
    ∷ t "enum"
    ∷ t "explicit"
    ∷ t "export"
    ∷ t "extern"
    ∷ t "false"
    ∷ t "float"
    ∷ t "for"
    ∷ t "friend"
    ∷ t "goto"
    ∷ t "if"
    ∷ t "inline"
    ∷ t "int"
    ∷ t "long"
    ∷ t "mutable"
    ∷ t "namespace"
    ∷ t "new"
    ∷ t "noexcept"
    ∷ t "not"
    ∷ t "not_eq"
    ∷ t "nullptr"
    ∷ t "operator"
    ∷ t "or"
    ∷ t "or_eq"
    ∷ t "private"
    ∷ t "protected"
    ∷ t "public"
    ∷ t "register"
    ∷ t "reinterpret_cast"
    ∷ t "requires"
    ∷ t "return"
    ∷ t "short"
    ∷ t "signed"
    ∷ t "sizeof"
    ∷ t "static"
    ∷ t "static_assert"
    ∷ t "static_cast"
    ∷ t "struct"
    ∷ t "switch"
    ∷ t "template"
    ∷ t "this"
    ∷ t "thread_local"
    ∷ t "throw"
    ∷ t "true"
    ∷ t "try"
    ∷ t "typedef"
    ∷ t "typeid"
    ∷ t "typename"
    ∷ t "union"
    ∷ t "unsigned"
    ∷ t "using"
    ∷ t "virtual"
    ∷ t "void"
    ∷ t "volatile"
    ∷ t "wchar_t"
    ∷ t "while"
    ∷ t "xor"
    ∷ t "xor_eq"
    ∷ []

-- `keywords.count(str)`
unfoldable pub contains : Text → List Text → Bool
unfolding text_eq
contains s [] = false
contains s (k ∷ ks) = text_eq k s || contains s ks

-- `element_t::sanitise`
unfoldable pub sanitise : Text → Text
unfolding contains keywords t
sanitise s = if contains s keywords then t "_" << s else s

-- The prefix up to the first underscore is dropped if it is one of the two.
unfoldable pub unprefix : Text → Text
unfolding find text_eq t
unprefix name = elim (find b'_' name) [
  | none ↦ name
  | some n ↦
      if text_eq (take n name) (t "wl") || text_eq (take n name) (t "wp")
      then drop (n + 1) name
      else name
]
