-- ===== src/Client/Display/Connected.antt =====
-- The constructors of `display_t` on each branch, and what they keep.
use Prim.Native.String.{String}
use waylandpp.Prelude.{
  ℕ, suc, Bool, ◌≡◌, refl, true, false, ◌||◌, some, ◌∷◌, ◌==◌, if◌then◌else◌, ==_self, Bool-cases,
  inl, inr,
}
use waylandpp.Prelude.Assoc.{eq_of}
use waylandpp.Runtime.{runtime_error, Outcome, ok, thrown, fault, out_of_fuel, Env}
use waylandpp.Client.Proxy.Objects.{
  refs, WrapperType, display, foreign, Proxy, var, wrapped, get_obj, set_obj, erase_obj, null_proxy,
}
use waylandpp.Prelude.Int.{ℤ}
use waylandpp.Client.Proxy.{
  Call, wl_display_connect_to_fd, wl_display_connect, wl_proxy_set_user_data, State, update,
  new_data, destroy, release, reset, get_ok, is_foreign,
}
use waylandpp.Client.Proxy.Invariant.{IsBalanced, no_refs}
use waylandpp.Client.Proxy.Copies.{emplaced-Inv, called-Inv}
use waylandpp.Client.Proxy.Methods.{set_interface}
use waylandpp.Client.Proxy.Construct.{
  with_new-Inv, wrapping, placed, with_new, construct_bare, construct_new,
}
use waylandpp.Client.Display.Connect.{
  display_name, construct_display, display_of_fd, display_of_name, display_of_pointer,
}

-- The object `n` without an interface, and with it
abbrev pub of_type : ℕ → ℕ → WrapperType → ℕ → Proxy
of_type p d t interface = record {
  proxy = p;
  data_ptr = d;
  type = t;
  interface = interface;
  copy_constructor = 0;
}

-- The state with a display that the library has made, and that with one of the program
abbrev pub connected : ℕ → ℕ → ℕ → State → State
connected n p interface s = record {
  objs = (wrapped s.next, null_proxy) ∷ (var n, of_type p s.next display interface) ∷ s.objs;
  heap = update s.heap s.next (some (new_data 0));
  next = suc s.next;
  calls = wl_proxy_set_user_data p s.next ∷ s.calls;
}

abbrev pub borrowed : ℕ → ℕ → ℕ → State → State
borrowed n p interface s = record s { objs = (var n, of_type p 0 foreign interface) ∷ s.objs }

abbrev pub with_call : Call → State → State
with_call c s = record s { calls = c ∷ s.calls }

-- An exception where the pointer is null, and the second state otherwise
abbrev pub made_or_thrown : ℕ → String → State → State → Outcome State (Unit {0})
made_or_thrown p message s t = if p == 0 then thrown (runtime_error message) s else ok tt t

or_true : (b : Bool) → (b || true) ≡ true
or_true true = refl
or_true false = refl

module _ (env : Env Call) (display_i callback_i registry_i : ℕ) (k n : ℕ) where
  module _ (message : String) (s : State) where
    -- Without a display, the object that the base has made ends, and nothing is left of it.
    fails :
        (t : WrapperType)
        → construct_display env display_i callback_i registry_i (suc k) (var n) 0 t message s
          ≡ thrown (runtime_error message) s
    unfolding construct_display destroy release reset get_obj set_obj erase_obj
    fails t =
        let bare = construct_bare env n 0 t 0 s (or_true (is_foreign t)) in
        let here =
          get_ok (var n) (wrapping 0 t) (placed n (wrapping 0 t) s) (rw (==_self n) refl) in
        rw (bare, here, here, here, ==_self n, ==_self n) refl

    of_library :
        (p : ℕ)
        → (p == 0) ≡ false
        → construct_display env display_i callback_i registry_i (suc k) (var n) p display message s
          ≡ ok tt (connected n p display_i s)
    unfolding construct_display set_interface set_obj get_obj
    of_library p full =
        let here =
          get_ok (var n) (of_type p s.next display 0) (with_new n p display 0 s)
            (rw (==_self n) refl) in
        rw (construct_new env n p display 0 s full refl, here, full, here, ==_self n) refl

    of_program :
        (p : ℕ)
        → (p == 0) ≡ false
        → construct_display env display_i callback_i registry_i (suc k) (var n) p foreign message s
          ≡ ok tt (borrowed n p display_i s)
    unfolding construct_display set_interface set_obj get_obj
    of_program p full =
        let here =
          get_ok (var n) (wrapping p foreign) (placed n (wrapping p foreign) s)
            (rw (==_self n) refl) in
        rw (here, full, here, ==_self n) refl

    made_by_library :
        (p : ℕ)
        → construct_display env display_i callback_i registry_i (suc k) (var n) p display message s
          ≡ made_or_thrown p message s (connected n p display_i s)
    made_by_library p = elim (Bool-cases (p == 0)) [
      | inl null ↦ rw null (rw (eq_of p 0 null) (fails display))
      | inr full ↦ rw full (of_library p full)
    ]

    made_by_program :
        (p : ℕ)
        → construct_display env display_i callback_i registry_i (suc k) (var n) p foreign message s
          ≡ made_or_thrown p message s (borrowed n p display_i s)
    made_by_program p = elim (Bool-cases (p == 0)) [
      | inl null ↦ rw null (rw (eq_of p 0 null) (fails foreign))
      | inr full ↦ rw full (of_program p full)
    ]

  -- Each constructor of `display_t` throws, with its message and nothing left of the object, if it has no display;
  -- otherwise the object is there with its table. A display that the library has connected has data of its
  -- own, with a counter of 1; a display of the program is foreign and has none.
  pub display_lem :
      (fd : ℤ) (name : String) (given : ℕ) (s : State)
      → let by_fd = wl_display_connect_to_fd fd in
        let by_name = wl_display_connect (display_name name) in
        let p = env.pointer s.calls by_fd in
        let q = env.pointer s.calls by_name in
        (display_of_fd env display_i callback_i registry_i (suc k) (var n) fd s
          ≡ made_or_thrown p "Could not connect to Wayland display server via file-descriptor"
              (with_call by_fd s)
              (connected n p display_i (with_call by_fd s)))
        × ((display_of_name env display_i callback_i registry_i (suc k) (var n) name s
              ≡ made_or_thrown q "Could not connect to Wayland display server via name"
                  (with_call by_name s)
                  (connected n q display_i (with_call by_name s)))
            × (display_of_pointer env display_i callback_i registry_i (suc k) (var n) given s
                ≡ made_or_thrown given "Cannot construct display_t wrapper from nullptr" s
                    (borrowed n given display_i s)))
  unfolding display_of_fd display_of_name display_of_pointer
  display_lem fd name given s =
      (made_by_library _ _ _, (made_by_library _ _ _, made_by_program _ _ _))

-- How a constructor ends: it returns or throws, and every counter is right.
abbrev pub EndsBalanced : Outcome State (Unit {0}) → Type 0
EndsBalanced (ok _ t) = IsBalanced t
EndsBalanced (thrown _ t) = IsBalanced t
EndsBalanced fault = ⊥
EndsBalanced out_of_fuel = ⊥

connected-IsBalanced :
    (n p interface : ℕ) (s : State) → IsBalanced s → IsBalanced (connected n p interface s)
unfolding refs get_obj
connected-IsBalanced n p interface s i =
    let j = with_new-Inv no_refs s i n p display 0 refl in
    record {
      owned = j.owned;
      fits = j.fits;
      members = j.members;
      fresh = j.fresh;
      small = j.small;
      null_free = j.null_free;
      next_pos = j.next_pos;
    }

ends_balanced :
    (p : ℕ) (message : String) (s t : State)
    → IsBalanced s
    → IsBalanced t
    → EndsBalanced (made_or_thrown p message s t)
ends_balanced p message s t i j = elim (Bool-cases (p == 0)) [
  | inl null ↦ rw null i
  | inr full ↦ rw full j
]

-- From a state where every counter is right, each constructor of `display_t` returns or throws, and every counter is
-- right again.
pub display-EndsBalanced :
    (env : Env Call) (display_i callback_i registry_i k n : ℕ) (fd : ℤ) (name : String) (given : ℕ)
    (s : State)
    → IsBalanced s
    → EndsBalanced (display_of_fd env display_i callback_i registry_i (suc k) (var n) fd s)
      × (EndsBalanced (display_of_name env display_i callback_i registry_i (suc k) (var n) name s)
          × EndsBalanced
              (display_of_pointer env display_i callback_i registry_i (suc k) (var n) given s))
display-EndsBalanced env display_i callback_i registry_i k n fd name given s i =
    let (by_fd, (by_name, by_pointer)) =
      display_lem env display_i callback_i registry_i k n fd name given s in
    let called : (c : Call) → IsBalanced (with_call c s) =
      λ c. called-Inv no_refs s i (c ∷ s.calls) in
    (
      rw by_fd (ends_balanced _ _ _ _ (called _) (connected-IsBalanced n _ display_i _ (called _))),
      (
        rw by_name
            (ends_balanced _ _ _ _ (called _) (connected-IsBalanced n _ display_i _ (called _))),
        rw by_pointer (
            ends_balanced _ _ _ _ i
              (emplaced-Inv no_refs s i n (of_type given 0 foreign display_i) refl)),
      ),
    )
