-- ===== src/Util/Argument.antt =====
-- `detail::argument_t` of src/wayland-util.cpp and include/wayland-util.hpp: an argument of a request, which
-- owns its array if it is one.
pub mod Arrays
use waylandpp.Prelude.{
  ℕ, suc, ◌+◌, ◌-◌, ◌^◌, Bool, true, false, ltb, ◌==◌, if◌then◌else◌, Option, none, some, List, [],
  ◌∷◌,
}
use waylandpp.Prelude.Assoc.{Assoc, find_key, set_key, erase_key}
use waylandpp.Runtime.{
  Outcome, ok, thrown, fault, out_of_fuel, M, pure, throw, undefined, runtime_error,
  invalid_argument, ◌>>=◌, ◌>>◌,
}

-- The members: the union, whose word is the address of the array if `is_array`
pub record Argument : Type 0 where
  pub word : ℕ
  pub is_array : Bool

abbrev pub unset : Argument
unset = record { word = 0; is_array = false }

-- The objects by their variables, and the contents of the `wl_array`s on the heap
pub record State : Type 0 where
  pub objs : Assoc Argument
  pub heap : ℕ → Option (List ℕ)
  pub next : ℕ

abbrev pub Exec : Type 0 → Type 0
Exec = M State

abbrev pub update : (ℕ → Option (List ℕ)) → ℕ → Option (List ℕ) → ℕ → Option (List ℕ)
update h d c e = if d == e then c else h e

unfoldable pub get : ℕ → Exec Argument
get l s = elim (find_key l s.objs) [ none ↦ undefined s | some p ↦ ok p s ]

unfoldable pub load : ℕ → Exec (List ℕ)
load d s = elim (s.heap d) [ none ↦ undefined s | some v ↦ ok v s ]

abbrev pub put : ℕ → Argument → Exec (Unit {0})
put l p s = ok tt (record s { objs = set_key l p s.objs })

abbrev pub emplace : ℕ → Argument → Exec (Unit {0})
emplace l p s = ok tt (record s { objs = (l, p) ∷ s.objs })

abbrev pub erase : ℕ → Exec (Unit {0})
erase l s = ok tt (record s { objs = erase_key l s.objs })

abbrev pub store : ℕ → Option (List ℕ) → Exec (Unit {0})
store d c s = ok tt (record s { heap = update s.heap d c })

-- `new wl_array`, initialised, with a content
abbrev pub allocate : List ℕ → Exec ℕ
allocate v s = ok s.next (record s { heap = update s.heap s.next (some v); next = suc s.next })

-- `if(is_array) { wl_array_release(argument.a); delete argument.a; }`
unfoldable pub free : Argument → Exec (Unit {0})
free p = if p.is_array then (do v ← load p.word; store p.word none) else pure tt

-- `argument_t(uint32_t)`, `argument_t(int32_t)`, `argument_t(wl_object *)`, `argument_t(nullptr_t)`: a word
unfoldable pub construct_word : ℕ → ℕ → Exec (Unit {0})
construct_word l w = emplace l (record { word = w; is_array = false })

-- `argument_t(double)`; `fixed` is `wl_fixed_from_double` of libwayland.
unfoldable pub construct_double : {F : Type 0} → (F → ℕ) → ℕ → F → Exec (Unit {0})
construct_double fixed l f = emplace l (record { word = fixed f; is_array = false })

-- `argument_t(const std::string &)`: the address of the text, which stays the caller's
unfoldable pub construct_string : ℕ → ℕ → Exec (Unit {0})
construct_string l c_str = emplace l (record { word = c_str; is_array = false })

-- `argument_t(const array_t &)`
unfoldable pub construct_array : ℕ → List ℕ → Exec (Unit {0})
construct_array l v = do d ← allocate v; emplace l (record { word = d; is_array = true })

-- `argument_t::fd`, for a number that is not negative
unfoldable pub fd : ℕ → ℕ → Exec (Unit {0})
fd l fileno =
    if ltb (2 ^ 31 - 1) fileno
    then throw (invalid_argument "FD number too big")
    else emplace l (record { word = fileno; is_array = false })

-- An object that is not made if its constructor throws
abbrev pub constructing : ℕ → Outcome State (Unit {0}) → Outcome State (Unit {0})
constructing l (ok a s) = ok a s
constructing l (thrown e s) = thrown e (record s { objs = erase_key l s.objs })
constructing l fault = fault
constructing l out_of_fuel = out_of_fuel

-- `fails` tells for which contents `wl_array_copy` fails.
module _ (fails : List ℕ → Bool) where
  -- `operator=(const argument_t &)`
  unfoldable pub copy_assign : ℕ → ℕ → Exec (Unit {0})
  unfolding free
  copy_assign l m = if l == m then pure tt else do
    p ← get l
    free p
    q ← get m
    if q.is_array
        then (do
          d ← allocate []
          put l (record { word = d; is_array = true })
          v ← load q.word
          if fails v then throw (runtime_error "wl_array_copy failed.") else store d (some v))
        else put l q

  -- `argument_t(const argument_t &)`
  unfoldable pub copy_construct : ℕ → ℕ → Exec (Unit {0})
  unfolding copy_assign
  copy_construct l m = do emplace l unset; (λ s. constructing l (copy_assign l m s))

-- The defaulted moves copy the members.
unfoldable pub move_construct : ℕ → ℕ → Exec (Unit {0})
move_construct l m = do q ← get m; emplace l q

unfoldable pub move_assign : ℕ → ℕ → Exec (Unit {0})
move_assign l m = do q ← get m; put l q

-- `~argument_t()`
unfoldable pub destroy : ℕ → Exec (Unit {0})
unfolding free
destroy l = do p ← get l; free p; erase l

-- `get_c_argument`
unfoldable pub get_c_argument : ℕ → Exec ℕ
get_c_argument l = do p ← get l; pure p.word
