-- ===== src/Server/Dispatch.antt =====
-- `resource_t::c_dispatcher` of src/wayland-server.cpp: from the arguments of a request, as libwayland
-- hands them over, to the values that the generated dispatcher reads.
--
-- Each argument that is a resource becomes an object of its own. Its copies in the vector stand for
-- the same handle; what is kept of them is that each counts a reference, which no destructor gives up.
pub mod Counts
pub mod Objects
pub mod Decode
use waylandpp.Prelude.{
  ℕ, suc, ◌+◌, Option, none, some, List, [], ◌∷◌, ◌==◌, if◌then◌else◌, get_elem?, map,
}
use waylandpp.Prelude.Int.{ℤ, pos}
use waylandpp.Runtime.{invalid_argument, ok, pure, throw, undefined, ◌>>=◌, ◌>>◌, Env}
use waylandpp.Server.Store.{ServerCall, State, Exec, get, emplace, retain_some, null_handle}
use waylandpp.Server.Resource
use waylandpp.Server.Client
use waylandpp.Server.Callbacks.{get_client}
use waylandpp.Client.Dispatch.{WlArgument, or_empty, is_skipped}
use waylandpp.Scanner.Text.{Text, t}

-- What an `any` of the vector holds; a resource by its variable
pub data RequestValue (Double : Type 0) : Type 0 where
  int32 : ℤ → RequestValue Double
  uint32 : ℕ → RequestValue Double
  double : Double → RequestValue Double
  string : Text → RequestValue Double
  resource : ℕ → RequestValue Double
  array : List ℕ → RequestValue Double

-- The type that the `any` was made from
unfoldable pub value_type : {Double : Type 0} → RequestValue Double → Text
value_type (int32 z) = t "int32_t"
value_type (uint32 n) = t "uint32_t"
value_type (double d) = t "double"
value_type (string s) = t "std::string"
value_type (resource l) = t "resource_t"
value_type (array b) = t "array_t"

-- `types` are the interfaces of the message, `version_of` is the version of an interface, `listening`
-- says which data have a listener for the new resources of a client.
module _ {Double : Type 0} (fixed_to_double : ℤ → Double) (env : Env ServerCall)
    (types version_of : ℕ → ℕ) (listening : List ServerCall → ℕ → List ℕ) where
  -- `a = resource_t(...)` copies the object into the `any`, `push_back(a)` into the vector.
  unfoldable pub pass_on : ℕ → Exec (RequestValue Double)
  pass_on l = do p ← get l; retain_some p.data_ptr; retain_some p.data_ptr; pure (resource l)

  unfoldable pub decode_object : (l o : ℕ) → Exec (RequestValue Double)
  unfolding pass_on
  decode_object l o = do
    if o == 0 then emplace l null_handle else Resource.construct env l o
    pass_on l

  unfoldable pub decode_new : (cl l c id : ℕ) → Exec (RequestValue Double)
  unfolding pass_on
  decode_new cl l c id = do
    if id == 0
        then emplace l null_handle
        else Resource.construct_new env listening l cl (types c) (version_of (types c)) id
    pass_on l

  -- The switch on a character of the signature, for the argument `c`
  unfoldable pub decode_argument : (ch cl l c : ℕ) → WlArgument → Exec (RequestValue Double)
  unfolding decode_object decode_new
  decode_argument ch cl l c arg =
      if ch == b'i'
      then pure (int32 arg.i)
      else if ch == b'u'
      then pure (uint32 arg.u)
      else if ch == b'h'
      then pure (int32 arg.h)
      else if ch == b'f'
      then pure (double (fixed_to_double arg.f))
      else if ch == b's'
      then pure (string (or_empty arg.s))
      else if ch == b'o'
      then decode_object l arg.o
      else if ch == b'n'
      then decode_new cl l c arg.n
      else if ch == b'a'
      then pure (array (or_empty arg.a))
      else pure (int32 (pos 0))

  -- `args[c]`, undefined behaviour past the end
  unfoldable pub argument_at : List WlArgument → ℕ → Exec WlArgument
  argument_at args c s = elim (get_elem? args c) [ none ↦ undefined s | some arg ↦ ok arg s ]

  -- The loop over the signature; the client is in `cl`, the objects go to the variables from `base` on.
  unfoldable pub decode_request :
      (cl base : ℕ) → Text → List WlArgument → ℕ → Exec (List (RequestValue Double))
  decode_request cl base [] args c = pure []
  decode_request cl base (ch ∷ signature) args c =
      let here = decode_request cl base signature args c in
      let rest = decode_request cl base signature args (c + 1) in
      if is_skipped ch then here else do
        arg ← argument_at args c
        v ← decode_argument ch cl (base + c) c arg
        vs ← rest
        pure (v ∷ vs)

  -- The dispatcher is called through a type that takes the vector by value: a copy of each element.
  unfoldable pub copy_requests : List (RequestValue Double) → Exec (Unit {0})
  copy_requests [] s = ok tt s
  copy_requests (resource l ∷ vs) s = ((do p ← get l; retain_some p.data_ptr) >> copy_requests vs) s
  copy_requests (_ ∷ vs) s = copy_requests vs s

  -- The end of the vector
  unfoldable pub destroy_requests : List (RequestValue Double) → Exec (Unit {0})
  destroy_requests [] s = ok tt s
  destroy_requests (resource l ∷ vs) s = (Resource.destroy l >> destroy_requests vs) s
  destroy_requests (_ ∷ vs) s = destroy_requests vs s

  -- `c_dispatcher`, with the resource in `p` and its client in `cl`; the generated dispatcher is
  -- `handlers implementation`. An exception leaves the objects in their variables: their destructors do
  -- nothing.
  unfoldable pub resource_dispatcher :
      (handlers : ℕ → ℕ → List (RequestValue Double) → ℕ → Exec ℤ)
      → (p cl base implementation target opcode : ℕ) → Option Text
      → Option (List WlArgument)
      → Exec ℤ
  resource_dispatcher handlers p cl base implementation target opcode message args =
      if implementation == 0
      then throw (invalid_argument "resource dispatcher: implementation is NULL.")
      else if target == 0
      then throw (invalid_argument "resource dispatcher: target is NULL.")
      else elim message [
        | none ↦ throw (invalid_argument "resource dispatcher: message is NULL.")
        | some signature ↦ elim args [
          | none ↦ throw (invalid_argument "resource dispatcher: args is NULL.")
          | some argv ↦ do
            Resource.construct env p target
            get_client env cl p
            vargs ← decode_request cl base signature argv 0
            events ← Resource.get_events p
            copy_requests vargs
            answer ← handlers implementation opcode vargs events
            destroy_requests vargs
            Client.destroy cl
            Resource.destroy p
            pure answer
        ]
      ]
