-- ===== src/Client/Dispatch/Signature.antt =====
-- The signature that the scanner prints for an event against the types that the generated dispatcher
-- reads its arguments as.
use waylandpp.Prelude.{
  ℕ, zero, suc, ◌+◌, ◌/◌, ◌%◌, ◌<◌, ◌≡◌, refl, true, false, Option, none, some, List, [], ◌∷◌, ◌++◌,
  ltb, if◌then◌else◌, map, Bool-cases, inl, inr, arith,
}
use waylandpp.Prelude.Int.{ℤ, pos, negsuc}
use waylandpp.Runtime.{ok, Env}
use waylandpp.Client.Proxy.{Call, State}
use waylandpp.Client.Proxy.Invariant.{Inv, no_refs}
use waylandpp.Client.Dispatch.{is_skipped, WlArgument, Value, type_name, decode}
use waylandpp.Client.Dispatch.Decode.{slot_type, slots, AreReady, decode_lem}
use waylandpp.Scanner.Text.{Text, t, is_empty, text_eq, show, show_int, digits_of, each}
use waylandpp.Scanner.Model.{Argument, Event}
use waylandpp.Scanner.Print.{get_type, print_type, print_enum_wire_type, print_short, is_later}
use waylandpp.Scanner.Print.Tables.{print_slot, print_signature}

-- The types of an argument without interface and enumeration
pub data Plain : Type 0 where
  int : Plain
  uint : Plain
  fixed : Plain
  string : Plain
  object : Plain
  array : Plain
  fd : Plain

unfoldable pub word : Plain → Text
word int = t "int"
word uint = t "uint"
word fixed = t "fixed"
word string = t "string"
word object = t "object"
word array = t "array"
word fd = t "fd"

-- The arguments that a protocol can give to an event
pub data IsEventArgument (a : Argument) : Type 0 where
  plain :
      (k : Plain)
      → a.type ≡ word k
      → is_empty a.interface ≡ true
      → is_empty a.enum_iface ≡ true
      → is_empty a.enum_name ≡ true
      → IsEventArgument a
  int_enum : a.type ≡ t "int" → is_empty a.enum_name ≡ false → IsEventArgument a
  uint_enum : a.type ≡ t "uint" → is_empty a.enum_name ≡ false → IsEventArgument a
  typed_object :
      a.type ≡ t "object"
      → is_empty a.interface ≡ false
      → is_empty a.enum_name ≡ true
      → IsEventArgument a
  typed_new_id :
      a.type ≡ t "new_id"
      → is_empty a.interface ≡ false
      → is_empty a.enum_name ≡ true
      → IsEventArgument a

unfoldable pub AreEventArguments : List Argument → Type 0
AreEventArguments [] = Unit
AreEventArguments (a ∷ args) = IsEventArgument a × AreEventArguments args

-- `int` is another name of `int32_t`.
unfoldable pub same_as : Text → Text
same_as s = if text_eq s (t "int") then t "int32_t" else s

-- The type that the generated dispatcher reads an argument as, `none` for the scanner's exception
unfoldable pub reads : Argument → Option Text
reads a = elim (get_type false a) [ none ↦ none | some s ↦ some (same_as s) ]

pub slots_append : (a b : Text) → slots (a ++ b) ≡ slots a ++ slots b
unfolding slots
slots_append [] b = refl
slots_append (c ∷ a) b = elim (Bool-cases (is_skipped c)) [
  | inl e ↦ rw (e, slots_append a b)
  | inr e ↦ rw (e, slots_append a b)
]

digit_skipped : (n : ℕ) → n < 10 → is_skipped (b'0' + n) ≡ true
digit_skipped n h = ground arith

slots_digits : (fuel n : ℕ) (acc : Text) → slots acc ≡ [] → slots (digits_of fuel n acc) ≡ []
unfolding slots digits_of
slots_digits zero n acc h = h
slots_digits (suc fuel) n acc h = elim (Bool-cases (ltb n 10)) [
  | inl e ↦ rw (e, digit_skipped n (ground arith), h)
  | inr e ↦ rw (
    e,
    slots_digits fuel (n / 10) ((b'0' + n % 10) ∷ acc)
        (rw (digit_skipped (n % 10) (omega arith), h)),
  )
]

slots-show : (n : ℕ) → slots (show n) ≡ []
unfolding show slots
slots-show n = slots_digits (suc n) n [] refl

pub slots_since : (z : ℤ) → slots (if is_later z then show_int z else []) ≡ []
unfolding show_int slots
slots_since (pos n) = elim (Bool-cases (ltb 1 n)) [ inl e ↦ rw (e, slots-show n) | inr e ↦ rw e ]
slots_since (negsuc n) = refl

one_slot_type : (a : Argument) → IsEventArgument a → map some (slots (print_slot a)) ≡ reads a ∷ []
unfolding slots slot_type print_slot print_short reads get_type print_type print_enum_wire_type
    same_as text_eq t word
one_slot_type a (plain int e i f n) = elim (Bool-cases a.allow_null) [
  | inl x ↦ rw (reads, get_type, n, i, f, e, x)
  | inr x ↦ rw (reads, get_type, n, i, f, e, x)
]
one_slot_type a (plain uint e i f n) = elim (Bool-cases a.allow_null) [
  | inl x ↦ rw (reads, get_type, n, i, f, e, x)
  | inr x ↦ rw (reads, get_type, n, i, f, e, x)
]
one_slot_type a (plain fixed e i f n) = elim (Bool-cases a.allow_null) [
  | inl x ↦ rw (reads, get_type, n, i, f, e, x)
  | inr x ↦ rw (reads, get_type, n, i, f, e, x)
]
one_slot_type a (plain string e i f n) = elim (Bool-cases a.allow_null) [
  | inl x ↦ rw (reads, get_type, n, i, f, e, x)
  | inr x ↦ rw (reads, get_type, n, i, f, e, x)
]
one_slot_type a (plain object e i f n) = elim (Bool-cases a.allow_null) [
  | inl x ↦ rw (reads, get_type, n, i, f, e, x)
  | inr x ↦ rw (reads, get_type, n, i, f, e, x)
]
one_slot_type a (plain array e i f n) = elim (Bool-cases a.allow_null) [
  | inl x ↦ rw (reads, get_type, n, i, f, e, x)
  | inr x ↦ rw (reads, get_type, n, i, f, e, x)
]
one_slot_type a (plain fd e i f n) = elim (Bool-cases a.allow_null) [
  | inl x ↦ rw (reads, get_type, n, i, f, e, x)
  | inr x ↦ rw (reads, get_type, n, i, f, e, x)
]
one_slot_type a (int_enum e n) = elim (Bool-cases a.allow_null) [
  | inl x ↦ rw (reads, get_type, n, e, x)
  | inr x ↦ rw (reads, get_type, n, e, x)
]
one_slot_type a (uint_enum e n) = elim (Bool-cases a.allow_null) [
  | inl x ↦ rw (reads, get_type, n, e, x)
  | inr x ↦ rw (reads, get_type, n, e, x)
]
one_slot_type a (typed_object e i n) = elim (Bool-cases a.allow_null) [
  | inl x ↦ rw (reads, get_type, n, i, e, x)
  | inr x ↦ rw (reads, get_type, n, i, e, x)
]
one_slot_type a (typed_new_id e i n) = elim (Bool-cases a.allow_null) [
  | inl x ↦ rw (reads, get_type, n, i, e, x)
  | inr x ↦ rw (reads, get_type, n, i, e, x)
]

map_append {ℓ κ} :
    {A : Type ℓ} {B : Type κ} (f : A → B) (xs ys : List A) → map f (xs ++ ys) ≡ map f xs ++ map f ys
map_append f [] ys = refl
map_append f (x ∷ xs) ys = rw (map_append f xs ys)

each_slot_types :
    (args : List Argument)
    → AreEventArguments args
    → map some (slots (each print_slot args)) ≡ map reads args
unfolding each AreEventArguments slots
each_slot_types [] h = refl
each_slot_types (a ∷ args) (h, hs) = rw (
  slots_append (print_slot a) (each print_slot args),
  map_append {B = Option Text} some (slots (print_slot a)) (slots (each print_slot args)),
  one_slot_type a h,
  each_slot_types args hs,
)

-- For an event whose arguments are of the kinds that events have, the signature that the scanner
-- prints stands, argument by argument, for the types that the generated dispatcher reads: the
-- scanner does not throw, digits of the version count for nothing, and no type differs.
pub signature_types :
    (e : Event) → AreEventArguments e.args → map some (slots (print_signature e)) ≡ map reads e.args
unfolding print_signature
signature_types e h = rw (
  slots_append (if is_later e.since then show_int e.since else []) (each print_slot e.args),
  slots_since e.since,
  each_slot_types e.args h,
)

module _ {Double : Type 0} (fixed_to_double : ℤ → Double) (env : Env Call) where
  -- An event with such arguments, dispatched in a state with right counters and with its arguments
  -- ready: the values that `c_dispatcher` makes by the printed signature are, one by one, of the
  -- types that the generated dispatcher gets from them, so that no `get` throws `bad_cast` and no
  -- index is past the end.
  pub event_types :
      (lost : ℕ → ℕ) (base : ℕ) (e : Event) (args : List WlArgument) (s : State)
      → AreEventArguments e.args
      → Inv lost no_refs s
      → AreReady fixed_to_double env base (print_signature e) args 0 s
      → (vs : List (Value Double)) × ((u : State) × ((decode fixed_to_double env base
                (print_signature e)
                args
                0
                s
              ≡ ok vs u)
            × ((map some (map type_name vs) ≡ map reads e.args) × Inv lost no_refs u)))
  event_types lost base e args s known i ready =
      let all = decode_lem fixed_to_double env lost base (print_signature e) args 0 s i ready in
      (all.values, (all.after, (all.done, (rw all.typed (signature_types e known), all.kept))))
