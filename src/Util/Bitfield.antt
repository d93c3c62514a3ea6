-- ===== src/Util/Bitfield.antt =====
-- `bitfield` of include/wayland-util.hpp: a `uint32_t` with the operators of a set of flags, for a size below 31, where
-- `1 << size` fits an `int`.
pub mod Complement
use Prim.Native.Nat.{bit_and, bit_or, bit_xor, bit_and-bitwise, digits, min}
use native.Mathlib.Nat.{div-add-mod, mul-add-mod_self_left, mod-eq_of_lt}
use waylandpp.Prelude.{
  ℕ, zero, suc, ◌+◌, ◌-◌, ◌*◌, ◌/◌, ◌%◌, ◌^◌, ◌≤◌, ◌<◌, ◌≡◌, refl, sym, ap, ◌∙◌, Bool, true, false,
  not, ◌==◌, if◌then◌else◌, arith,
}

-- `v`, and whether it is 0
abbrev pub to_bool : ℕ → Bool
to_bool v = not (v == 0)

abbrev pub is_equal : ℕ → ℕ → Bool
is_equal v b = v == b

-- `|`, `&`, `^` and `~`
unfoldable pub union : ℕ → ℕ → ℕ
union v b = bit_or v b

unfoldable pub intersection : ℕ → ℕ → ℕ
intersection v b = bit_and v b

module _ (size : ℕ) where
  abbrev pub mask : ℕ
  mask = 2 ^ size - 1

  unfoldable pub difference : ℕ → ℕ → ℕ
  difference v b = bit_and (bit_xor v b) mask

  unfoldable pub complement : ℕ → ℕ
  complement v = bit_and (2 ^ 32 - 1 - v) mask

-- `|=`, `&=` and `^=`, as the flags afterwards
abbrev pub union_assign : ℕ → ℕ → ℕ
union_assign v b = union v b

abbrev pub intersection_assign : ℕ → ℕ → ℕ
intersection_assign v b = intersection v b

abbrev pub difference_assign : ℕ → ℕ → ℕ → ℕ
difference_assign size v b = difference size v b
