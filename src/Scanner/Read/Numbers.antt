-- ===== src/Scanner/Read/Numbers.antt =====
-- `std::stoi` and `std::stol` with base 0, as scanner/scanner.cpp calls them: a sign, a prefix `0x` or
-- `0`, and the digits up to the first other character; 64 bits for `long`.
use waylandpp.Prelude.{
  ℕ, zero, suc, ◌+◌, ◌-◌, ◌*◌, ◌^◌, Bool, ◌||◌, ◌&&◌, Option, none, some, [], ◌∷◌, leb, ltb, ◌==◌,
  if◌then◌else◌,
}
use waylandpp.Prelude.Int.{ℤ, pos, negsuc}
use waylandpp.Runtime.{invalid_argument, logic_error, M, pure, throw}
use waylandpp.Scanner.Text.{Text}

-- The value of a digit, at most 15
abbrev pub digit_value : ℕ → Option ℕ
digit_value c =
    if leb b'0' c && leb c b'9'
    then some (c - b'0')
    else if leb b'a' c && leb c b'f'
    then some (c - b'a' + 10)
    else if leb b'A' c && leb c b'F'
    then some (c - b'A' + 10)
    else none

-- The digits of a base; `none` if there are none yet
unfoldable pub digits : ℕ → Option ℕ → Text → Option ℕ
digits base acc [] = acc
digits base acc (c ∷ s) =
    let so_far : ℕ = elim acc [ none ↦ 0 | some n ↦ n ] in
    let d : ℕ = elim (digit_value c) [ none ↦ 99 | some v ↦ v ] in
    let more = digits base (some (so_far * base + d)) s in if ltb d base then more else acc

unfoldable pub unsigned : Text → Option ℕ
unfolding digits
unsigned (c ∷ x ∷ s) =
    if c == b'0' && (x == b'x' || x == b'X')
    then elim (digits 16 none s) [ none ↦ some 0 | some n ↦ some n ]
    else if c == b'0'
    then digits 8 none (c ∷ x ∷ s)
    else digits 10 none (c ∷ x ∷ s)
unsigned s = digits 10 none s

abbrev pub negate : ℕ → ℤ
negate zero = pos 0
negate (suc n) = negsuc n

unfoldable pub signed : Text → Option ℤ
unfolding unsigned
signed [] = none
signed (c ∷ s) =
    if c == b'-'
    then elim (unsigned s) [ none ↦ none | some n ↦ some (negate n) ]
    else elim (if c == b'+' then unsigned s else unsigned (c ∷ s)) [
      | none ↦ none
      | some n ↦ some (pos n)
    ]

-- Whether a number has a place in `bits` bits with a sign
abbrev pub fits : ℕ → ℤ → Bool
fits bits (pos n) = ltb n (2 ^ (bits - 1))
fits bits (negsuc n) = ltb n (2 ^ (bits - 1))

-- The text after the spaces that are skipped
unfoldable pub after_spaces : Text → Text
after_spaces [] = []
after_spaces (c ∷ s) = if c == 32 || (leb 9 c && leb c 13) then after_spaces s else c ∷ s

unfoldable pub stol : {S : Type 0} → Text → M S ℤ
stol s = elim (signed (after_spaces s)) [
  | none ↦ throw (invalid_argument "stol")
  | some z ↦ if fits 64 z then pure z else throw (logic_error "stol")
]

unfoldable pub stoi : {S : Type 0} → Text → M S ℤ
stoi s = elim (signed (after_spaces s)) [
  | none ↦ throw (invalid_argument "stoi")
  | some z ↦ if fits 32 z then pure z else throw (logic_error "stoi")
]
