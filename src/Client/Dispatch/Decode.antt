-- ===== src/Client/Dispatch/Decode.antt =====
-- The loop of `c_dispatcher` over a signature: one value for each argument, of the type its
-- character stands for.
use waylandpp.Prelude.{
  ℕ, ◌+◌, ◌≡◌, refl, true, false, ◌||◌, some, List, [], ◌∷◌, ◌==◌, if◌then◌else◌, get_elem?, map,
  Bool-cases, inl, inr, arith,
}
use waylandpp.Prelude.Int.{ℤ, pos}
use waylandpp.Runtime.{ok, Outcome, Env}
use waylandpp.Client.Proxy.Objects.{standard, var, null_proxy}
use waylandpp.Client.Proxy.{Call, wl_proxy_set_user_data, State}
use waylandpp.Client.Proxy.Invariant.{Inv, no_refs}
use waylandpp.Client.Proxy.Lifecycle.{IsSound, constructs-Keeps, perform}
use waylandpp.Client.Proxy.Copies.{emplaced-Inv, called-Inv}
use waylandpp.Client.Dispatch.{
  WlArgument, Value, int32, uint32, double, string, array, or_empty, proxy, type_name, is_skipped,
  decode_proxy, decode_one, arg_at, decode,
}
use waylandpp.Scanner.Text.{Text, t}

-- The type of the value that a character stands for, as the switch of `c_dispatcher` has it.
unfoldable pub slot_type : ℕ → Text
slot_type ch =
    if ch == b'u'
    then t "uint32_t"
    else if ch == b'f'
    then t "double"
    else if ch == b's'
    then t "std::string"
    else if ch == b'o' || ch == b'n'
    then t "proxy_t"
    else if ch == b'a'
    then t "array_t"
    else t "int32_t"

unfoldable pub slots : Text → List Text
slots [] = []
slots (ch ∷ signature) = if is_skipped ch then slots signature else slot_type ch ∷ slots signature

abbrev pub taken_over : ℕ → State → State
taken_over o s = record s { calls = wl_proxy_set_user_data o 0 ∷ s.calls }

-- The user data of a proxy argument is live or null: of a new one, after it has been set to null.
abbrev pub IsReady : Env Call → ℕ → WlArgument → State → Type 0
IsReady env ch arg s =
    ((ch == b'o') ≡ true → IsSound env arg.o standard s)
    × ((ch == b'n') ≡ true → IsSound env arg.o standard (taken_over arg.o s))

module _ {Double : Type 0} (fixed_to_double : ℤ → Double) (env : Env Call) where
  -- The signature asks for no more arguments than there are, and each is ready when it is reached.
  unfoldable pub AreReady : ℕ → Text → List WlArgument → ℕ → State → Type 0
  AreReady base [] args c s = Unit {0}
  AreReady base (ch ∷ signature) args c s =
      (is_skipped ch ≡ true → AreReady base signature args c s)
      × (is_skipped ch ≡ false
          → (arg : WlArgument) × ((get_elem? args c ≡ some arg)
              × (IsReady env ch arg s
                  × ((v : Value Double) (u : State)
                      → decode_one fixed_to_double env ch (var (base + c)) arg s ≡ ok v u
                      → AreReady base signature args (c + 1) u))))

  -- A value of the type comes out, and the counters are right.
  pub record Decodes (lost : ℕ → ℕ) (o : Outcome State (Value Double)) (type : Text) : Type 0 where
    pub value : Value Double
    pub after : State
    pub done : o ≡ ok value after
    pub typed : type_name value ≡ type
    pub kept : Inv lost no_refs after

  is : (a b : ℕ) → (a == b) ≡ true → a ≡ b
  is a b e = ground arith

  module _ (lost : ℕ → ℕ) where
    plainly :
        (s : State) (v : Value Double) → Inv lost no_refs s → Decodes lost (ok v s) (type_name v)
    plainly s v i = record { value = v; after = s; done = refl; typed = refl; kept = i }

    decode_proxy_lem :
        (n o : ℕ) (s : State)
        → Inv lost no_refs s
        → IsSound env o standard s
        → Decodes lost (decode_proxy fixed_to_double env (var n) o s) (t "proxy_t")
    unfolding decode_proxy type_name perform
    decode_proxy_lem n o s i sound = elim (Bool-cases (o == 0)) [
      | inl null ↦ rw null (plainly _ (proxy (var n)) (emplaced-Inv lost s i n null_proxy refl))
      | inr full ↦
          let (u, done, j) = constructs-Keeps env lost s i n o standard 0 sound in
          rw (full, done) (plainly u (proxy (var n)) j)
    ]

    new_lem :
        (n : ℕ) (arg : WlArgument) (s : State)
        → Inv lost no_refs s
        → IsSound env arg.o standard (taken_over arg.o s)
        → Decodes lost (decode_one fixed_to_double env b'n' (var n) arg s) (t "proxy_t")
    unfolding decode_one
    new_lem n arg s i sound = elim (Bool-cases (arg.o == 0)) [
      | inl null ↦ rw null (decode_proxy_lem n arg.o s i (λ full nz. ground (arith, null, full)))
      | inr full ↦
          rw full (decode_proxy_lem n arg.o (taken_over arg.o s) (called-Inv lost s i _) sound)
    ]

    decode_one_lem :
        (ch n : ℕ) (arg : WlArgument) (s : State)
        → Inv lost no_refs s
        → IsReady env ch arg s
        → Decodes lost (decode_one fixed_to_double env ch (var n) arg s) (slot_type ch)
    unfolding decode_one type_name slot_type
    decode_one_lem ch n arg s i (old, new) = elim (Bool-cases (ch == b'i')) [
      | inl ei ↦ rw (is ch b'i' ei) (plainly s (int32 arg.i) i)
      | inr ni ↦ elim (Bool-cases (ch == b'u')) [
        | inl eu ↦ rw (is ch b'u' eu) (plainly s (uint32 arg.u) i)
        | inr nu ↦ elim (Bool-cases (ch == b'h')) [
          | inl eh ↦ rw (is ch b'h' eh) (plainly s (int32 arg.h) i)
          | inr nh ↦ elim (Bool-cases (ch == b'f')) [
            | inl ef ↦ rw (is ch b'f' ef) (plainly s (double (fixed_to_double arg.f)) i)
            | inr nf ↦ elim (Bool-cases (ch == b's')) [
              | inl es ↦ rw (is ch b's' es) (plainly s (string (or_empty arg.s)) i)
              | inr ns ↦ elim (Bool-cases (ch == b'a')) [
                | inl ea ↦ rw (is ch b'a' ea) (plainly s (array (or_empty arg.a)) i)
                | inr na ↦ elim (Bool-cases (ch == b'o')) [
                  | inl eo ↦ rw (is ch b'o' eo) (decode_proxy_lem n arg.o s i (old eo))
                  | inr nq ↦ elim (Bool-cases (ch == b'n')) [
                    | inl en ↦ rw (is ch b'n' en) (new_lem n arg s i (new en))
                    | inr nn ↦ rw (ni, nu, nh, nf, ns, na, nq, nn) (plainly s (int32 (pos 0)) i)
                  ]
                ]
              ]
            ]
          ]
        ]
      ]
    ]

  -- The vector has one value for each argument of the signature, and the counters are right.
  pub record DecodesAll (lost : ℕ → ℕ) (o : Outcome State (List (Value Double))) (types : List Text)
      : Type 0 where
    pub values : List (Value Double)
    pub after : State
    pub done : o ≡ ok values after
    pub typed : map type_name values ≡ types
    pub kept : Inv lost no_refs after

  arg_at_ok :
      (args : List WlArgument) (c : ℕ) (arg : WlArgument) (s : State)
      → get_elem? args c ≡ some arg
      → arg_at fixed_to_double env args c s ≡ ok arg s
  unfolding arg_at
  arg_at_ok args c arg s e = rw (e, arg_at)

  module _ (lost : ℕ → ℕ) where
    -- From a state with right counters, where the signature asks for no more arguments than there
    -- are and the user data of each proxy argument is live or null when it is reached, the loop
    -- ends with one value for each argument, of the type that the character of the signature stands
    -- for, without exception or undefined behaviour, and the counters are right again.
    pub decode_lem :
        (base : ℕ) (signature : Text) (args : List WlArgument) (c : ℕ) (s : State)
        → Inv lost no_refs s
        → AreReady base signature args c s
        → DecodesAll lost (decode fixed_to_double env base signature args c s) (slots signature)
    unfolding decode AreReady slots
    decode_lem base [] args c s i ready = record {
      values = [];
      after = s;
      done = refl;
      typed = refl;
      kept = i;
    }
    decode_lem base (ch ∷ signature) args c s i ready = elim (Bool-cases (is_skipped ch)) [
      | inl skip ↦ rw skip (decode_lem base signature args c s i (ready.0 skip))
      | inr take ↦
          let (arg, (here, (isr, next))) = ready.1 take in
          let one = decode_one_lem lost ch (base + c) arg s i isr in
          let all =
            decode_lem base signature args (c + 1) one.after one.kept
              (next one.value one.after one.done) in
          rw (take, arg_at_ok args c arg s here, one.done, all.done)
            (record {
              values = one.value ∷ all.values;
              after = all.after;
              done = refl;
              typed = rw (one.typed, all.typed);
              kept = all.kept;
            })
    ]
