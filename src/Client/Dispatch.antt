-- ===== src/Client/Dispatch.antt =====
-- `proxy_t::c_dispatcher` of src/wayland-client.cpp: from the arguments of an event, as libwayland
-- hands them over, to the values that the generated dispatcher reads.
--
-- Each argument that is a proxy becomes an object of its own; the copies that only pass it into the
-- vector are left out.
pub mod Decode
pub mod Signature
pub mod Length
mod Tests
use waylandpp.Prelude.{
  ℕ, suc, ◌+◌, ◌≡◌, Bool, true, false, ◌||◌, ◌&&◌, Option, none, some, List, [], ◌∷◌, leb, ◌==◌,
  if◌then◌else◌, get_elem?, map,
}
use waylandpp.Prelude.Int.{ℤ, pos}
use waylandpp.Runtime.{
  invalid_argument, Outcome, ok, thrown, fault, out_of_fuel, and_then, pure, throw, undefined,
  ◌>>=◌, ◌>>◌, Env,
}
use waylandpp.Client.Proxy.Objects.{standard, Loc, var, null_proxy}
use waylandpp.Client.Proxy.{
  Call, wl_proxy_get_user_data, wl_proxy_set_user_data, State, Exec, call, emplace, destroy,
}
use waylandpp.Client.Proxy.Methods.{construct, get_events, ask}
use waylandpp.Scanner.Text.{Text, t, is_digit}

-- A `wl_argument` through each of the members of the union; a null pointer is 0 or `none`.
pub record WlArgument : Type 0 where
  pub i : ℤ
  pub u : ℕ
  pub h : ℤ
  pub f : ℤ
  pub s : Option Text
  pub o : ℕ
  pub n : ℕ
  pub a : Option (List ℕ)

-- What an `any` of the vector holds.
pub data Value (Double : Type 0) : Type 0 where
  int32 : ℤ → Value Double
  uint32 : ℕ → Value Double
  double : Double → Value Double
  string : Text → Value Double
  proxy : Loc → Value Double
  array : List ℕ → Value Double

-- The type that the `any` was made from.
unfoldable pub type_name : {Double : Type 0} → Value Double → Text
type_name (int32 z) = t "int32_t"
type_name (uint32 n) = t "uint32_t"
type_name (double d) = t "double"
type_name (string s) = t "std::string"
type_name (proxy l) = t "proxy_t"
type_name (array b) = t "array_t"

-- The characters that stand for no argument.
abbrev pub is_skipped : ℕ → Bool
is_skipped ch = ch == b'?' || is_digit ch

-- A scope that is left by a value or by an exception; `end` destroys what it holds.
abbrev pub leaving : {A : Type 0} → Outcome State A → Exec (Unit {0}) → Outcome State A
leaving (ok a s) end = and_then (end s) (λ _. pure a)
leaving (thrown e s) end = and_then (end s) (λ _. throw e)
leaving fault end = fault
leaving out_of_fuel end = out_of_fuel

abbrev pub or_empty : Option (List ℕ) → List ℕ
or_empty none = []
or_empty (some s) = s

module _ {Double : Type 0} (fixed_to_double : ℤ → Double) (env : Env Call) where
  -- The proxy of an argument, null for a null pointer.
  unfoldable pub decode_proxy : Loc → ℕ → Exec (Value Double)
  decode_proxy l o = do
    if o == 0 then emplace l null_proxy else construct env l o standard 0
    pure (proxy l)

  -- The switch on a character of the signature.
  unfoldable pub decode_one : ℕ → Loc → WlArgument → Exec (Value Double)
  decode_one ch l arg =
      if ch == b'i'
      then pure (int32 arg.i)
      else if ch == b'u'
      then pure (uint32 arg.u)
      else if ch == b'h'
      then pure (int32 arg.h)
      else if ch == b'f'
      then pure (double (fixed_to_double arg.f))
      else if ch == b's'
      then pure (string (or_empty arg.s))
      else if ch == b'o'
      then decode_proxy l arg.o
      else if ch == b'n'
      then (do
        if arg.o == 0 then pure tt else call (wl_proxy_set_user_data arg.o 0)
        decode_proxy l arg.o)
      else if ch == b'a'
      then pure (array (or_empty arg.a))
      else pure (int32 (pos 0))

  -- `args[c]`, undefined behaviour past the end
  unfoldable pub arg_at : List WlArgument → ℕ → Exec WlArgument
  arg_at args c s = elim (get_elem? args c) [ none ↦ undefined s | some arg ↦ ok arg s ]

  -- The loop over the signature; the objects go to the places from `base` on.
  unfoldable pub decode : ℕ → Text → List WlArgument → ℕ → Exec (List (Value Double))
  decode base [] args c = pure []
  decode base (ch ∷ signature) args c =
      let here = decode base signature args c in
      let rest = decode base signature args (c + 1) in
      if is_skipped ch
      then here
      else do arg ← arg_at args c; v ← decode_one ch (var (base + c)) arg; vs ← rest; pure (v ∷ vs)

  -- The end of the vector: its proxies are destroyed.
  unfoldable pub destroy_values : List (Value Double) → Exec (Unit {0})
  destroy_values [] s = ok tt s
  destroy_values (proxy l ∷ vs) s = ((λ u. destroy (suc u.next) l u) >> destroy_values vs) s
  destroy_values (_ ∷ vs) s = destroy_values vs s

  -- `c_dispatcher`; the generated dispatcher is `handlers implementation`.
  unfoldable pub c_dispatcher :
      (handlers : ℕ → ℕ → List (Value Double) → ℕ → Exec ℤ) (base implementation target opcode : ℕ)
      → Option Text
      → Option (List WlArgument)
      → Exec ℤ
  c_dispatcher handlers base implementation target opcode message args =
      if implementation == 0
      then throw (invalid_argument "proxy dispatcher: implementation is NULL.")
      else if target == 0
      then throw (invalid_argument "proxy dispatcher: target is NULL.")
      else elim message [
        | none ↦ throw (invalid_argument "proxy dispatcher: message is NULL.")
        | some signature ↦ elim args [
          | none ↦ throw (invalid_argument "proxy dispatcher: args is NULL.")
          | some argv ↦ do
            known ← ask env (wl_proxy_get_user_data target)
            if known == 0 then pure (pos 0) else do
              vargs ← decode (suc base) signature argv 0
              construct env (var base) target standard 0
              events ← get_events (var base)
              (λ u.
                  leaving (handlers implementation opcode vargs events u)
                    ((λ v. destroy (suc v.next) (var base) v) >> destroy_values vargs))
        ]
      ]
