-- ===== src/Runtime.antt =====
-- What the C++ code of src/ and include/ rests on: exceptions, undefined behaviour and the state
-- that it changes, as a monad. The C library behind the code is an argument of the definitions.
use Prim.Native.String.{String}
use waylandpp.Prelude.{ℕ, ◌+◌, ◌-◌, ◌%◌, ◌^◌, List}
use waylandpp.Prelude.Int.{ℤ}

-- The exceptions that the code throws, with their messages; `system_error` holds the `errno`.
pub data Error : Type 0 where
  invalid_argument runtime_error logic_error : String → Error
  system_error : ℕ → String → Error
  bad_cast out_of_range : Error

-- How a piece of code ends: by a value or by an exception, each with the state it leaves, or in
-- undefined behaviour (a null or dangling pointer). Recursion on fuel adds `out_of_fuel`.
pub data Outcome (S A : Type 0) : Type 0 where
  ok : A → S → Outcome S A
  thrown : Error → S → Outcome S A
  fault : Outcome S A
  out_of_fuel : Outcome S A

abbrev pub M : Type 0 → Type 0 → Type 0
M S A = S → Outcome S A

module _ {S : Type 0} where
  abbrev pub pure : {A : Type 0} → A → M S A
  pure a s = ok a s

  abbrev pub throw : {A : Type 0} → Error → M S A
  throw e s = thrown e s

  abbrev pub undefined : {A : Type 0} → M S A
  undefined s = fault

  abbrev pub and_then : {A B : Type 0} → Outcome S A → (A → M S B) → Outcome S B
  and_then (ok a s) f = f a s
  and_then (thrown e s) f = thrown e s
  and_then fault f = fault
  and_then out_of_fuel f = out_of_fuel

  infixl 5 ◌>>=◌ ◌>>◌
  abbrev pub ◌>>=◌ : {A B : Type 0} → M S A → (A → M S B) → M S B
  ◌>>=◌ m f s = and_then (m s) f

  abbrev pub ◌>>◌ : {B : Type 0} → M S (Unit {0}) → M S B → M S B
  ◌>>◌ m k s = and_then (m s) (λ _. k)

  -- `try { m } catch(...) { }`
  abbrev pub swallow : Outcome S (Unit {0}) → Outcome S (Unit {0})
  swallow (ok a s) = ok a s
  swallow (thrown e s) = ok tt s
  swallow fault = fault
  swallow out_of_fuel = out_of_fuel

-- `++` and `--` on an `unsigned int`.
abbrev pub u32_mod : ℕ
u32_mod = 2 ^ 32

abbrev pub inc32 : ℕ → ℕ
inc32 c = (c + 1) % u32_mod

abbrev pub dec32 : ℕ → ℕ
dec32 c = (c + u32_mod - 1) % u32_mod

-- The C library: what a call returns may depend on all calls that were made before it. A call that
-- returns a pointer is asked of `pointer`, one that returns an `int` of `int`; `errno` is what the
-- call that was made last leaves there.
pub record Env (Call : Type 0) : Type 0 where
  pub pointer : List Call → Call → ℕ
  pub int : List Call → Call → ℤ
  pub errno : List Call → ℕ
