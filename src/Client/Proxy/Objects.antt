-- ===== src/Client/Proxy/Objects.antt =====
-- The live `proxy_t` objects and their members (include/wayland-client.hpp).
use waylandpp.Prelude.{
  ℕ, ◌+◌, ◌≡◌, refl, Bool, true, false, Option, none, some, List, [], ◌∷◌, arith, ◌==◌,
  if◌then◌else◌, Bool-cases, inl, inr, ==_self,
}

-- `proxy_t::wrapper_type`
pub data WrapperType : Type 0 where
  standard display foreign proxy_wrapper : WrapperType

-- The members of a `proxy_t`; pointers are addresses and 0 is null. `data_ptr` is the member `data`.
pub record Proxy : Type 0 where
  pub proxy : ℕ
  pub data_ptr : ℕ
  pub type : WrapperType
  pub interface : ℕ
  pub copy_constructor : ℕ

-- `proxy_t() = default`
abbrev pub null_proxy : Proxy
null_proxy = record {
  proxy = 0;
  data_ptr = 0;
  type = standard;
  interface = 0;
  copy_constructor = 0;
}

-- Where an object lives: in a variable, or as the member `wrapped_proxy` of the data at an address.
pub data Loc : Type 0 where
  var wrapped : ℕ → Loc

abbrev pub loc_eq : Loc → Loc → Bool
loc_eq (var a) (var b) = a == b
loc_eq (wrapped a) (wrapped b) = a == b
loc_eq _ _ = false

abbrev pub Objs : Type 0
Objs = List (Loc × Proxy)

unfoldable pub get_obj : Loc → Objs → Option Proxy
get_obj l [] = none
get_obj l ((k, p) ∷ os) = if loc_eq k l then some p else get_obj l os

unfoldable pub set_obj : Loc → Proxy → Objs → Objs
set_obj l q [] = []
set_obj l q ((k, p) ∷ os) = if loc_eq k l then (k, q) ∷ os else (k, p) ∷ set_obj l q os

unfoldable pub erase_obj : Loc → Objs → Objs
erase_obj l [] = []
erase_obj l ((k, p) ∷ os) = if loc_eq k l then os else (k, p) ∷ erase_obj l os

-- Does the first address equal the second? As a number.
abbrev pub hit : ℕ → ℕ → ℕ
hit a d = if a == d then 1 else 0

-- How many objects refer to the data at `d`.
unfoldable pub refs : ℕ → Objs → ℕ
refs d [] = 0
refs d ((k, p) ∷ os) = hit p.data_ptr d + refs d os

pub loc_eq_self : (l : Loc) → loc_eq l l ≡ true
loc_eq_self (var a) = ==_self a
loc_eq_self (wrapped a) = ==_self a

pub loc_eq_sound : (k l : Loc) → loc_eq k l ≡ true → k ≡ l
loc_eq_sound (var a) (var b) h = ground arith
loc_eq_sound (wrapped a) (wrapped b) h = ground arith
loc_eq_sound (var a) (wrapped b) h = ground arith
loc_eq_sound (wrapped a) (var b) h = ground arith

module _ (l : Loc) where
  pub refs-set :
      (d : ℕ) (q p : Proxy) (os : Objs)
      → get_obj l os ≡ some p
      → refs d (set_obj l q os) + hit p.data_ptr d ≡ refs d os + hit q.data_ptr d
  unfolding refs get_obj set_obj
  refs-set d q p [] e = ground arith
  refs-set d q p ((k, r) ∷ os) e = elim (Bool-cases (loc_eq k l)) [
    | inl same ↦ rw same (ground (arith, same))
    | inr other ↦ rw other (ground (arith, refs-set d q p os, other))
  ]

  pub refs-erase :
      (d : ℕ) (p : Proxy) (os : Objs)
      → get_obj l os ≡ some p
      → refs d (erase_obj l os) + hit p.data_ptr d ≡ refs d os
  unfolding refs get_obj erase_obj
  refs-erase d p [] e = ground arith
  refs-erase d p ((k, r) ∷ os) e = elim (Bool-cases (loc_eq k l)) [
    | inl same ↦ rw same (ground (arith, same))
    | inr other ↦ rw other (ground (arith, refs-erase d p os, other))
  ]

  pub get-set_self :
      (q p : Proxy) (os : Objs) → get_obj l os ≡ some p → get_obj l (set_obj l q os) ≡ some q
  unfolding get_obj set_obj
  get-set_self q p [] e = ground arith
  get-set_self q p ((k, r) ∷ os) e = elim (Bool-cases (loc_eq k l)) [
    | inl same ↦ rw same (rw same refl)
    | inr other ↦ rw other (rw other (get-set_self q p os (ground (arith, other))))
  ]

  pub get-set_ne :
      (m : Loc) (q : Proxy) (os : Objs)
      → loc_eq l m ≡ false
      → get_obj m (set_obj l q os) ≡ get_obj m os
  unfolding get_obj set_obj
  get-set_ne m q [] e = refl
  get-set_ne m q ((k, r) ∷ os) e = elim (Bool-cases (loc_eq k l)) [
    | inl same ↦ rw (loc_eq_sound k l same, loc_eq_self l, e) refl
    | inr other ↦ rw other (ground (arith, get-set_ne m q os e))
  ]

  pub get-erase_ne :
      (m : Loc) (os : Objs) → loc_eq l m ≡ false → get_obj m (erase_obj l os) ≡ get_obj m os
  unfolding get_obj erase_obj
  get-erase_ne m [] e = refl
  get-erase_ne m ((k, r) ∷ os) e = elim (Bool-cases (loc_eq k l)) [
    | inl same ↦ rw (loc_eq_sound k l same, loc_eq_self l, e) refl
    | inr other ↦ rw other (ground (arith, get-erase_ne m os e))
  ]
