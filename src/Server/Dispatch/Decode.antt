-- ===== src/Server/Dispatch/Decode.antt =====
-- The loop of `resource_t::c_dispatcher` over a signature: one value for each argument, of the type its
-- character stands for.
use waylandpp.Prelude.{
  ◌≤◌, length, ℕ, ◌+◌, ◌≡◌, true, false, ◌||◌, some, List, [], ◌∷◌, ◌==◌, if◌then◌else◌, get_elem?,
  map,
}
use waylandpp.Prelude.Int.{ℤ}
use waylandpp.Runtime.{ok, Outcome, Env}
use waylandpp.Server.Store.{ServerCall, State}
use waylandpp.Server.Store.Inv.{Inv, no_refs}
use waylandpp.Server.Dispatch.{RequestValue, value_type, decode_argument}
use waylandpp.Client.Dispatch.{WlArgument, is_skipped}
use waylandpp.Scanner.Text.{Text, t}
use waylandpp.Server.Dispatch.Counts.{resources, with_lost}
use waylandpp.Server.Dispatch.Objects.{IsReady}

-- The type of the value that a character stands for, as the switch of `c_dispatcher` has it
unfoldable pub argument_type : ℕ → Text
argument_type ch =
    if ch == b'u'
    then t "uint32_t"
    else if ch == b'f'
    then t "double"
    else if ch == b's'
    then t "std::string"
    else if ch == b'o' || ch == b'n'
    then t "resource_t"
    else if ch == b'a'
    then t "array_t"
    else t "int32_t"

unfoldable pub argument_types : Text → List Text
argument_types [] = []
argument_types (ch ∷ signature) =
    if is_skipped ch then argument_types signature else argument_type ch ∷ argument_types signature

module _ {Double : Type 0} (fixed_to_double : ℤ → Double) (env : Env ServerCall)
    (types version_of : ℕ → ℕ) (listening : List ServerCall → ℕ → List ℕ) where
  -- The signature asks for no more arguments than there are, and each is ready when it is reached.
  unfoldable pub AreReady : (cl base : ℕ) → Text → List WlArgument → ℕ → State → Type 0
  AreReady cl base [] args c s = Unit {0}
  AreReady cl base (ch ∷ signature) args c s =
      (is_skipped ch ≡ true → AreReady cl base signature args c s)
      × (is_skipped ch ≡ false
          → (arg : WlArgument) × ((get_elem? args c ≡ some arg)
              × (IsReady fixed_to_double env types version_of listening ch cl (base + c) c arg s
                  × ((v : RequestValue Double) (u : State)
                      → decode_argument fixed_to_double env types version_of listening ch cl
                          (base + c) c arg s
                        ≡ ok v u
                      → AreReady cl base signature args (c + 1) u))))

  -- The vector has one value for each argument of the signature, and the counters are right but for
  -- two references to the data of each resource, and one to each of the data that listeners made.
  pub record DecodesRequest (lost : ℕ → ℕ) (o : Outcome State (List (RequestValue Double)))
      (named : List Text) : Type 0 where
    pub items : List (RequestValue Double)
    pub after : State
    pub copied : List ℕ
    pub made : List ℕ
    pub done : o ≡ ok items after
    pub typed : map value_type items ≡ named
    pub sized : length copied ≡ resources items
    pub few : length made ≤ length copied
    pub kept : Inv (with_lost lost copied made) no_refs after
