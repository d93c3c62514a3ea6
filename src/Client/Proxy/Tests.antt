-- ===== src/Client/Proxy/Tests.antt =====
-- The theorems of `proxy_t` at a small program: a proxy, its copies and a library that remembers the
-- user data that it was given.
use waylandpp.Prelude.{
  ℕ, ◌+◌, ◌≡◌, refl, ◌≢◌, true, none, some, List, [], ◌∷◌, arith, ◌==◌, if◌then◌else◌,
}
use waylandpp.Prelude.Int.{pos}
use waylandpp.Runtime.{ok, Env}
use waylandpp.Client.Proxy.Objects.{
  standard, proxy_wrapper, Proxy, var, wrapped, get_obj, set_obj, erase_obj, refs, null_proxy,
}
use waylandpp.Client.Proxy.{
  Call, wl_proxy_get_user_data, wl_proxy_set_user_data, wl_proxy_create_wrapper, ProxyData, State,
  new_data, destroy, get, load,
}
use waylandpp.Client.Proxy.Methods.{
  construct, copy_assign, copy_construct, move_construct, is_valid, construct_wrapper,
}
use waylandpp.Client.Proxy.Invariant.{count, Inv, no_refs, IsBalanced}
use waylandpp.Client.Proxy.Destructor.{Destroys, destroy_lem}
use waylandpp.Client.Proxy.Lifecycle.{
  assign_leaks, Action, constructs, copies, moves, destroys, perform, IsSafe,
}
use waylandpp.Client.Proxy.Wrapper.{IsWrappable, construct_wrapper_lem}
use waylandpp.Client.Proxy.History.{
  perform_all, AllAllowed, NoDangling, run-NoDangling, run-IsBalanced,
}

-- The user data that the calls have set for `p`, and null if none has.
abbrev user_data : ℕ → List Call → ℕ
user_data p [] = 0
user_data p (wl_proxy_set_user_data q v ∷ cs) = if q == p then v else user_data p cs
user_data p (_ ∷ cs) = user_data p cs

abbrev mock : Env Call
mock = record {
  pointer = λ cs c. elim c [ wl_proxy_get_user_data p ↦ user_data p cs | _ ↦ 50 ];
  int = λ cs c. pos 0;
  errno = λ cs. 0;
}

abbrev empty : State
empty = record { objs = []; heap = λ d. none; next = 1; calls = [] }

empty-IsBalanced : IsBalanced empty
unfolding refs get_obj
empty-IsBalanced = record {
  owned = λ d nz. omega arith;
  fits = tt;
  members = λ d pos. omega arith;
  fresh = λ d above. refl;
  small = λ d. omega arith;
  null_free = refl;
  next_pos = omega arith;
}

-- A proxy, a copy, a second handle from the pointer, a move, and all destroyed.
abbrev program : List Action
program =
    constructs 0 7 standard 0
    ∷ copies 1 0
    ∷ constructs 2 7 standard 0
    ∷ moves 3 1
    ∷ destroys 0
    ∷ destroys 2
    ∷ destroys 3
    ∷ []

-- What each of the objects holds: the proxy at 7, with the data at 1.
abbrev handle : Proxy
handle = record { proxy = 7; data_ptr = 1; type = standard; interface = 0; copy_constructor = 0 }

program-Allowed : AllAllowed mock program empty
unfolding perform construct copy_construct copy_assign move_construct destroy get load get_obj
    set_obj erase_obj is_valid
program-Allowed = (
  ground arith,
  (
    (record { source = handle; there = refl; valid = refl; room = omega arith }, refl),
    (
      ground arith,
      (((handle, refl), refl), ((handle, refl), ((handle, refl), ((handle, refl), tt)))),
    ),
  ),
)

run-NoDangling_example :
    (t : State) × (perform_all mock program empty ≡ ok tt t) × IsSafe t × NoDangling t
run-NoDangling_example =
    run-NoDangling mock program empty (no_refs, empty-IsBalanced) program-Allowed

run-IsBalanced_example :
    (t : State) × (perform_all mock program empty ≡ ok tt t)
    × ((d : ℕ) → d ≢ 0 → refs d t.objs ≡ count (t.heap d))
    × IsBalanced t
unfolding perform construct copy_construct copy_assign move_construct destroy get load get_obj
    set_obj erase_obj is_valid
run-IsBalanced_example =
    run-IsBalanced mock program empty empty-IsBalanced program-Allowed
      (tt, (tt, (tt, (tt, (tt, (tt, (tt, tt)))))))

abbrev cell : ℕ → ProxyData
cell n = record (new_data 4) { counter = n; has_destroy_opcode = true; destroy_opcode = 9 }

-- Two copies of a proxy on the queue 4, which sends the request 9 when it is destroyed.
abbrev two : State
two = record {
  objs = (wrapped 1, null_proxy) ∷ (var 0, handle) ∷ (var 1, handle) ∷ [];
  heap = λ d. if d == 1 then some (cell 2) else none;
  next = 2;
  calls = [];
}

two-IsBalanced : IsBalanced two
unfolding refs get_obj
two-IsBalanced = record {
  owned = λ d nz. ground arith;
  fits = ((refl, omega arith), (refl, (refl, tt)));
  members = λ d pos. ground arith;
  fresh = λ d above. ground arith;
  small = λ d. ground arith;
  null_free = refl;
  next_pos = omega arith;
}

-- The same after one of the copies was overwritten: its reference is lost.
abbrev leaky : State
leaky = record two { objs = (wrapped 1, null_proxy) ∷ (var 0, handle) ∷ (var 1, null_proxy) ∷ [] }

abbrev one_lost : ℕ → ℕ
one_lost d = if d == 1 then 1 else 0

leaky-Inv : Inv one_lost no_refs leaky
unfolding refs get_obj
leaky-Inv = record {
  owned = λ d nz. ground arith;
  fits = ((refl, omega arith), (refl, (refl, tt)));
  members = λ d pos. ground arith;
  fresh = λ d above. ground arith;
  small = λ d. ground arith;
  null_free = refl;
  next_pos = omega arith;
}

destroy_lem_example : Destroys 2 no_refs no_refs (var 0) handle two
unfolding get_obj
destroy_lem_example =
    destroy_lem 1 no_refs no_refs (var 0) handle two two-IsBalanced refl tt (λ j le. refl)
      (omega arith)

two-IsWrappable : IsWrappable mock 0 two
unfolding get_obj is_valid
two-IsWrappable = record {
  copyable = record { source = handle; there = refl; valid = refl; room = omega arith };
  has_data = omega arith;
  has_native = omega arith;
  made = omega arith;
  bare = refl;
}

construct_wrapper_lem_example :
    (t : State) × (construct_wrapper mock 3 (var 5) (var 0) two ≡ ok tt t)
    × Inv no_refs no_refs t
    × (get_obj (var 5) t.objs
        ≡ some (record null_proxy {
          proxy = mock.pointer [] (wl_proxy_create_wrapper 7);
          data_ptr = 2;
          type = proxy_wrapper;
        }))
    × (get_obj (wrapped 2) t.objs ≡ some handle)
    × (count (t.heap 1) ≡ 3)
unfolding two-IsWrappable
construct_wrapper_lem_example =
    construct_wrapper_lem mock no_refs two two-IsBalanced 5 0 two-IsWrappable refl 3

-- A third object refers to other data.
abbrev other : Proxy
other = record handle { proxy = 8; data_ptr = 2 }

abbrev three : State
three = record two {
  objs = (wrapped 2, null_proxy) ∷ (var 2, other) ∷ two.objs;
  heap = λ d. if d == 1 then some (cell 2) else if d == 2 then some (cell 1) else none;
  next = 3;
}

three-IsBalanced : IsBalanced three
unfolding refs get_obj
three-IsBalanced = record {
  owned = λ d nz. ground arith;
  fits = ((refl, omega arith), (refl, ((refl, omega arith), (refl, (refl, tt)))));
  members = λ d pos. ground arith;
  fresh = λ d above. ground arith;
  small = λ d. ground arith;
  null_free = refl;
  next_pos = omega arith;
}

assign_leaks_example :
    (t : State) × (copy_assign (var 0) (var 2) three ≡ ok tt t)
    × (count (t.heap 1) ≡ refs 1 t.objs + 1)
unfolding get_obj is_valid
assign_leaks_example =
    assign_leaks mock three 0 2 handle three-IsBalanced refl
      (record { source = other; there = refl; valid = refl; room = omega arith }) refl (omega arith)
