-- ===== src/Scanner/Read/Ends.antt =====
-- What is claimed of code of the scanner that may throw: it ends, and what it returns is right.
use waylandpp.Prelude.{some, ◌≡◌, refl, ◌⊎◌, Bool-cases, Option-cases, inl, inr}
use waylandpp.Runtime.{Error, invalid_argument, logic_error, Outcome, ok, thrown}
use waylandpp.Scanner.Text.{Text}
use waylandpp.Scanner.Read.Numbers.{stoi, stol, signed, after_spaces, fits}

-- The code returns a value and a state with the property, or it throws; its behaviour is defined.
abbrev pub Ends : {S A : Type 0} → Outcome S A → (A → S → Type 0) → Type 0
Ends {S = S} {A = A} o P =
    ((a : A) × ((u : S) × ((o ≡ ok a u) × P a u))) ⊎ ((e : Error) × ((u : S) × (o ≡ thrown e u)))

-- The two conversions change no state.
pub Ends-stoi : {S : Type 0} (v : Text) (s : S) → Ends (stoi v s) (λ z u. u ≡ s)
unfolding stoi
Ends-stoi v s = elim (Option-cases (signed (after_spaces v))) [
  | inl e ↦ inr (invalid_argument "stoi", (s, rw (e, stoi) refl))
  | inr (z, e) ↦ elim (Bool-cases (fits 32 z)) [
    | inl h ↦ inl (z, (s, (rw (e, stoi, h) refl, refl)))
    | inr h ↦ inr (logic_error "stoi", (s, rw (e, stoi, h) refl))
  ]
]

pub Ends-stol :
    {S : Type 0} (v : Text) (s : S)
    → Ends (stol v s) (λ z u. (u ≡ s) × (signed (after_spaces v) ≡ some z))
unfolding stol
Ends-stol v s = elim (Option-cases (signed (after_spaces v))) [
  | inl e ↦ inr (invalid_argument "stol", (s, rw (e, stol) refl))
  | inr (z, e) ↦ elim (Bool-cases (fits 64 z)) [
    | inl h ↦ inl (z, (s, (rw (e, stol, h) refl, (refl, e))))
    | inr h ↦ inr (logic_error "stol", (s, rw (e, stol, h) refl))
  ]
]
