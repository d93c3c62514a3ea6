-- ===== src/Scanner/Names/Safe.antt =====
-- What `element_t::sanitise` and `interface_t::unprefix` of scanner/scanner.cpp make of a name.
use waylandpp.Prelude.{
  ◌≡◌, refl, Bool, false, ◌&&◌, ◌||◌, [], ◌∷◌, ◌++◌, ◌==◌, if◌then◌else◌, Bool-cases, Option-cases,
  inl, inr, arith,
}
use waylandpp.Scanner.Text.{Text, t, text_eq, find, drop}
use waylandpp.Scanner.Names.{keywords, contains, sanitise, unprefix}

-- No keyword begins with an underscore.
underscored : (s : Text) → contains (b'_' ∷ s) keywords ≡ false
unfolding contains keywords t text_eq
underscored s = refl

-- The name that `sanitise` returns is no keyword, and it ends in the name that it was given.
pub sanitise_safe :
    (s : Text) → (contains (sanitise s) keywords ≡ false) × ((p : Text) × (sanitise s ≡ p ++ s))
unfolding sanitise t
sanitise_safe s = elim (Bool-cases (contains s keywords)) [
  | inl word ↦ rw word (underscored s, (b'_' ∷ [], refl))
  | inr free ↦ rw free (free, ([], refl))
]

-- Whether a name begins with `wl_` or `wp_`
unfoldable pub is_prefixed : Text → Bool
is_prefixed (c ∷ d ∷ e ∷ s) = c == b'w' && ((d == b'l' || d == b'p') && e == b'_')
is_prefixed _ = false

-- `unprefix` drops the prefixes `wl_` and `wp_` and changes no other name.
pub unprefix_lem : (name : Text) → unprefix name ≡ (if is_prefixed name then drop 3 name else name)
unfolding unprefix is_prefixed find text_eq t
unprefix_lem [] = refl
unprefix_lem (c ∷ []) = ground arith
unprefix_lem (c ∷ d ∷ []) = ground arith
unprefix_lem (c ∷ d ∷ e ∷ s) = elim (Option-cases (find b'_' s)) [
  | inl h ↦ ground (arith, h)
  | inr (n, h) ↦ ground (arith, h)
]
