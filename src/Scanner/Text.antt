-- ===== src/Scanner/Text.antt =====
-- Texts of the scanner as lists of codes, with the parts of `std::string` and of output streams that
-- scanner/scanner.cpp uses.
use Prim.Native.Char.{code}
use Prim.Native.String.{String}
use waylandpp.Prelude.{
  ℕ, zero, suc, ◌+◌, ◌-◌, ◌/◌, ◌%◌, ◌≡◌, refl, Bool, true, false, ◌&&◌, Option, none, some, List,
  [], ◌∷◌, ◌++◌, arith, ltb, leb, ◌==◌, if◌then◌else◌, length,
}
use waylandpp.Prelude.Int.{ℤ, pos, negsuc}

abbrev pub Text : Type 0
Text = List ℕ

abbrev pub codes : String → Text
codes String.[] = []
codes (String.◌∷◌ c s) = code c ∷ codes s

-- A literal of the source.
unfoldable pub t : String → Text
t s = codes s

-- `std::endl`
abbrev pub endl : Text
endl = 10 ∷ []

-- `ss << text`
infixl 66 ◌<<◌
abbrev pub ◌<<◌ : Text → Text → Text
a << b = a ++ b

unfoldable pub text_eq : Text → Text → Bool
text_eq [] [] = true
text_eq (a ∷ as') (b ∷ bs) = a == b && text_eq as' bs
text_eq _ _ = false

pub text_eq_self : (a : Text) → text_eq a a ≡ true
unfolding text_eq
text_eq_self [] = refl
text_eq_self (a ∷ r) = ground (arith, text_eq_self r)

pub text_eq_sound : (a b : Text) → text_eq a b ≡ true → a ≡ b
unfolding text_eq
text_eq_sound [] [] h = refl
text_eq_sound (a ∷ r) (b ∷ u) h = ground (arith, text_eq_sound r u)
text_eq_sound [] (b ∷ u) h = ground arith
text_eq_sound (a ∷ r) [] h = ground arith

abbrev pub is_empty : Text → Bool
is_empty [] = true
is_empty (c ∷ s) = false

-- `is_none`, for a list that is empty
abbrev pub no_items {ℓ} : {A : Type ℓ} → List A → Bool
no_items [] = true
no_items (x ∷ xs) = false

abbrev pub take : ℕ → Text → Text
take zero s = []
take (suc n) [] = []
take (suc n) (c ∷ s) = c ∷ take n s

-- `s.substr(0, s.size()-2)`; below two characters the difference wraps, and nothing is cut.
unfoldable pub cut_two : Text → Text
cut_two s = if ltb (length s) 2 then s else take (length s - 2) s

-- The digits of a number, the last one first in `digits_of`.
unfoldable pub digits_of : ℕ → ℕ → Text → Text
digits_of zero n acc = acc
digits_of (suc fuel) n acc =
    let rest = digits_of fuel (n / 10) ((b'0' + n % 10) ∷ acc) in
    if ltb n 10 then (b'0' + n) ∷ acc else rest

-- `ss << n` for a number that is not negative, and for an `int`
unfoldable pub show : ℕ → Text
unfolding digits_of
show n = digits_of (suc n) n []

unfoldable pub show_int : ℤ → Text
unfolding show
show_int (pos n) = show n
show_int (negsuc n) = b'-' ∷ show (suc n)

-- `isdigit`
abbrev pub is_digit : ℕ → Bool
is_digit c = leb b'0' c && leb c b'9'

-- `s.find(c)`
unfoldable pub find : ℕ → Text → Option ℕ
find c [] = none
find c (d ∷ s) = if d == c then some 0 else elim (find c s) [ none ↦ none | some n ↦ some (suc n) ]

abbrev pub drop : ℕ → Text → Text
drop zero s = s
drop (suc n) [] = []
drop (suc n) (c ∷ s) = drop n s

-- `for(x : xs) ss << f(x)`
unfoldable pub each {ℓ} : {A : Type ℓ} → (A → Text) → List A → Text
each f [] = []
each f (x ∷ xs) = f x << each f xs
