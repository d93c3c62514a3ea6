-- ===== src/Client/Dispatch/Tests.antt =====
-- The theorems of the dispatcher at an event with a serial, a surface and an array of keys.
use waylandpp.Prelude.{ℕ, ◌≡◌, refl, false, none, some, List, [], ◌∷◌, map, arith}
use waylandpp.Prelude.Int.{ℤ, pos}
use waylandpp.Runtime.{ok, Env}
use waylandpp.Client.Proxy.Objects.{get_obj, refs}
use waylandpp.Client.Proxy.{Call, State}
use waylandpp.Client.Proxy.Invariant.{Inv, no_refs, IsBalanced}
use waylandpp.Client.Dispatch.{WlArgument, Value, type_name, decode}
use waylandpp.Client.Dispatch.Decode.{slots, IsReady, AreReady, DecodesAll, decode_lem}
use waylandpp.Client.Dispatch.Signature.{
  uint, array, plain, typed_object, AreEventArguments, reads, word, signature_types, event_types,
}
use waylandpp.Scanner.Text.{Text, t, show, show_int, digits_of, each, text_eq}
use waylandpp.Scanner.Model.{Argument, Event}
use waylandpp.Scanner.Print.Tables.{print_signature, print_slot}
use waylandpp.Scanner.Print.{print_short}

abbrev argument : Text → Text → Text → Argument
argument name type interface = record {
  name = name;
  summary = [];
  type = type;
  interface = interface;
  enum_iface = [];
  enum_name = [];
  allow_null = false;
}

-- `wl_keyboard.enter`
abbrev enter : Event
enter = record {
  name = t "enter";
  summary = [];
  description = [];
  args =
      argument (t "serial") (t "uint") []
      ∷ argument (t "surface") (t "object") (t "surface")
      ∷ argument (t "keys") (t "array") []
      ∷ [];
  since = pos 2;
  ret = argument [] [] [];
  opcode = 1;
}

enter_known : AreEventArguments enter.args
unfolding AreEventArguments t word
enter_known = (
  plain uint refl refl refl refl,
  (typed_object refl refl refl, (plain array refl refl refl refl, tt)),
)

signature_types_example : map some (slots (print_signature enter)) ≡ map reads enter.args
signature_types_example = signature_types enter enter_known

-- No proxy has user data.
abbrev fresh_library : Env Call
fresh_library = record { pointer = λ cs c. 0; int = λ cs c. pos 0; errno = λ cs. 0 }

abbrev empty : State
empty = record { objs = []; heap = λ d. none; next = 1; calls = [] }

empty-IsBalanced : IsBalanced empty
unfolding refs get_obj
empty-IsBalanced = record {
  owned = λ d nz. omega arith;
  fits = tt;
  members = λ d pos. omega arith;
  fresh = λ d above. refl;
  small = λ d. omega arith;
  null_free = refl;
  next_pos = omega arith;
}

abbrev wl_argument : ℕ → List ℕ → WlArgument
wl_argument n bytes = record {
  i = pos n;
  u = n;
  h = pos n;
  f = pos n;
  s = some bytes;
  o = n;
  n = n;
  a = some bytes;
}

abbrev enter_args : List WlArgument
enter_args = wl_argument 17 [] ∷ wl_argument 64 [] ∷ wl_argument 0 (30 ∷ 31 ∷ []) ∷ []

enter_signature : print_signature enter ≡ t "2uoa"
unfolding print_signature each print_slot print_short show show_int digits_of t text_eq
enter_signature = refl

no_user_data : (ch : ℕ) (arg : WlArgument) (s : State) → IsReady fresh_library ch arg s
no_user_data ch arg s = (λ _ full nz. ground (arith, nz), λ _ full nz. ground (arith, nz))

enter_ready :
    AreReady {Double = ℤ} (λ z. z) fresh_library 0 (print_signature enter) enter_args 0 empty
unfolding AreReady t
enter_ready = rw enter_signature (
    (
      λ _. (
        λ h. ground (arith, h),
        λ _. (
          wl_argument 17 [],
          (
            refl,
            (
              no_user_data b'u' (wl_argument 17 []) empty,
              λ v u e. (
                λ h. ground (arith, h),
                λ _. (
                  wl_argument 64 [],
                  (
                    refl,
                    (
                      no_user_data b'o' (wl_argument 64 []) u,
                      λ v u e. (
                        λ h. ground (arith, h),
                        λ _. (
                          wl_argument 0 (30 ∷ 31 ∷ []),
                          (refl, (no_user_data b'a' (wl_argument 0 (30 ∷ 31 ∷ [])) u, λ v u e. tt)),
                        ),
                      ),
                    ),
                  ),
                ),
              ),
            ),
          ),
        ),
      ),
      λ h. ground (arith, h),
    ))

decode_lem_example :
    DecodesAll {Double = ℤ}
      (λ z. z)
      fresh_library
      no_refs
      (decode (λ z. z) fresh_library 0 (print_signature enter) enter_args 0 empty)
      (slots (print_signature enter))
decode_lem_example =
    decode_lem (λ z. z) fresh_library no_refs 0 (print_signature enter) enter_args 0 empty
      empty-IsBalanced enter_ready

event_types_example :
    (vs : List (Value ℤ)) × ((u : State) × ((decode
            (λ z. z)
            fresh_library
            0
            (print_signature enter)
            enter_args
            0
            empty
          ≡ ok vs u)
        × ((map some (map type_name vs) ≡ map reads enter.args) × Inv no_refs no_refs u)))
event_types_example =
    event_types (λ z. z) fresh_library no_refs 0 enter enter_args empty enter_known empty-IsBalanced
      enter_ready
