-- ===== src/Server/Tests.antt =====
-- The theorems of the server library at small programs, with a library that remembers the user data
-- that it was given.
use waylandpp.Prelude.{
  ℕ, ◌⊎◌, ◌+◌, ◌≡◌, ◌≢◌, refl, false, none, some, List, [], ◌∷◌, arith, ◌==◌, if◌then◌else◌,
}
use waylandpp.Prelude.Int.{pos}
use waylandpp.Prelude.Assoc.{tally, find_key, set_key, erase_key}
use waylandpp.Runtime.{ok, fault, thrown, runtime_error, and_then, Env}
use waylandpp.Server.Store.{
  Handle, Cell, of_display, of_client, of_resource, wl_display_get_client_list, of_global, of_loop,
  ServerCall, wl_client_get_user_data, wl_client_set_user_data, wl_global_get_user_data,
  wl_global_create, wl_resource_create, wl_display_get_event_loop, wl_display_destroy,
  wl_display_destroy_clients, State, get, load, retain, release, copy_construct_by, destroy_by,
  call_all, init_by, wrap_by, update, handler, wl_global_destroy, wl_global_set_user_data,
  wl_event_loop_add_destroy_listener, wl_event_loop_get_destroy_listener,
}
use waylandpp.Server.Store.Inv.{count, refs, Inv, no_refs}
use waylandpp.Server.Store.History.{
  Action, constructs, copies, destroys, perform, perform_all, AllAllowed, NoDangling,
  run_handles-NoDangling, run_handles-IsBalanced,
}
use waylandpp.Server.Store.Wrap.{log}
use waylandpp.Server.Store.Shared.{Shared}
use waylandpp.Server.Display
use waylandpp.Server.Display.Handles.{
  IsDisplay, display_handles, destroy_last_display, calls_by, left_by,
}
use waylandpp.Server.Global
use waylandpp.Server.Global.Handles.{global_lives_once}
use waylandpp.Server.Client
use waylandpp.Server.Resource
use waylandpp.Server.Client.Handles.{client_data-Shared}
use waylandpp.Server.Loop
use waylandpp.Server.Callbacks.{construct_generated, bind_func, get_client_list, get_event_loop}
use waylandpp.Server.Callbacks.Bind.{generated_resource_lem, bind_lem}
use waylandpp.Server.Callbacks.Created.{
  listened_state, listener_calls, generated_state, resource_calls,
}
use waylandpp.Server.Callbacks.Orphans.{loop_after_display-faults}
use waylandpp.Server.Callbacks.Lists.{Lists, client_list_lem}
use waylandpp.Server.Callbacks.Borrowed.{borrowed_loop_stays}

-- The data that the calls have set for the client `p`, and null if none has
abbrev user_data : ℕ → List ServerCall → ℕ
user_data p [] = 0
user_data p (wl_client_set_user_data q v ∷ cs) = if q == p then v else user_data p cs
user_data p (_ ∷ cs) = user_data p cs

abbrev answer : List ServerCall → ServerCall → ℕ
answer cs c = elim c [
  | wl_client_get_user_data p ↦ user_data p cs
  | wl_global_get_user_data p ↦ 1
  | wl_global_create d i v dat f ↦ 60
  | wl_resource_create c i v id ↦ 70
  | wl_display_get_event_loop d ↦ 80
  | _ ↦ 0
]

abbrev mock : Env ServerCall
mock = record { pointer = answer; int = λ cs c. pos 0; errno = λ cs. 0 }

abbrev empty : State
empty = record { objs = []; heap = λ d. none; next = 1; calls = [] }

empty-Inv : Inv no_refs no_refs empty
unfolding tally
empty-Inv = record {
  owned = λ d nz. omega arith;
  fresh = λ d above. refl;
  small = λ d. omega arith;
  null_free = refl;
  next_pos = omega arith;
}

-- Nothing with data ends with the display.
abbrev nothing : List ServerCall → ℕ → List Display.Ending
nothing cs d = []

-- A display, a copy of it, and both destroyed
abbrev display_program : List Action
display_program = constructs 0 5 ∷ copies 1 0 ∷ destroys 0 ∷ destroys 1 ∷ []

abbrev handle : Handle
handle = record { native = 5; data_ptr = 1 }

-- The one handle that is left of the display
abbrev counted : ℕ → Cell
counted n = record { counter = n; members = of_display Display.new_data }

display_program-Allowed : AllAllowed (display_handles mock nothing) display_program empty
unfolding perform Display.construct Display.init wrap_by init_by call_all get load retain release
    copy_construct_by destroy_by Display.fini Display.destroy_display Display.destroy_func
    Display.end_all find_key set_key erase_key
display_program-Allowed = (
  (ground arith, λ known. absurd (known refl)),
  (
    (handle, (refl, (ground arith, omega arith))),
    (
      (
        handle,
        (
          refl,
          record {
            has_native = ground arith;
            has_data = ground arith;
            counter = 2;
            fields = Display.new_data;
            there = refl;
            no_clients = refl;
            no_loop = refl;
          },
        ),
      ),
      (
        (
          handle,
          (
            refl,
            record {
              has_native = ground arith;
              has_data = ground arith;
              counter = 1;
              fields = Display.new_data;
              there = refl;
              no_clients = refl;
              no_loop = refl;
            },
          ),
        ),
        tt,
      ),
    ),
  ),
)

run_handles-NoDangling_example :
    (t : State) × ((perform_all (display_handles mock nothing) display_program empty ≡ ok tt t)
      × NoDangling (display_handles mock nothing) t)
run_handles-NoDangling_example =
    run_handles-NoDangling (display_handles mock nothing) display_program no_refs empty empty-Inv
      display_program-Allowed

run_handles-IsBalanced_example :
    (t : State) × ((perform_all (display_handles mock nothing) display_program empty ≡ ok tt t)
      × ((d : ℕ) → d ≢ 0 → refs d t.objs + 0 ≡ count (t.heap d)))
run_handles-IsBalanced_example =
    run_handles-IsBalanced (display_handles mock nothing) (λ p d. refl) display_program no_refs
      empty empty-Inv display_program-Allowed

-- One display, whose end is told to the function 30
abbrev one_display : State
one_display = record {
  objs = (0, handle) ∷ [];
  heap = λ d.
      if d == 1
      then some (record {
        counter = 1;
        members = of_display (record { destroy = 30; client_created = 31; filter_func = 0 });
      })
      else none;
  next = 2;
  calls = [];
}

one_display-IsDisplay : IsDisplay nothing handle one_display
one_display-IsDisplay = record {
  has_native = ground arith;
  has_data = ground arith;
  counter = 1;
  fields = record { destroy = 30; client_created = 31; filter_func = 0 };
  there = refl;
  no_clients = refl;
  no_loop = refl;
}

destroy_last_display_example :
    let h = one_display-IsDisplay in
    (t : State) × ((Display.destroy nothing 0 one_display ≡ ok tt t)
      × ((t.calls ≡ calls_by h.counter handle h.fields [])
          × ((d : ℕ) → t.heap d ≡ update one_display.heap 1 (left_by h.counter h.fields) d)))
unfolding find_key one_display-IsDisplay
destroy_last_display_example =
    destroy_last_display nothing one_display 0 handle one_display-IsDisplay refl (omega arith)
      (omega arith)

-- A display (0) with no function for its end, and a handle (1) of its loop
abbrev with_loop : State
with_loop = record {
  objs = (0, handle) ∷ (1, record { native = 80; data_ptr = 2 }) ∷ [];
  heap = λ d.
      if d == 1
      then some (counted 1)
      else if d == 2
      then some (record { counter = 1; members = of_loop (Loop.new_data false) })
      else none;
  next = 3;
  calls = [];
}

-- The loop ends in the call after that for the clients.
abbrev loop_last : List ServerCall → ℕ → List Display.Ending
loop_last cs d = elim cs [
  | [] ↦ []
  | c ∷ more ↦ elim c [ wl_display_destroy_clients n ↦ [] | _ ↦ Display.loop_ends 2 ∷ [] ]
]

loop_after_display-faults_example :
    (t : State) × ((Display.destroy loop_last 0 with_loop ≡ ok tt t)
      × ((t.calls ≡ wl_display_destroy 5 ∷ wl_display_destroy_clients 5 ∷ [])
          × (Loop.destroy 1 t ≡ fault)))
unfolding find_key
loop_after_display-faults_example =
    loop_after_display-faults loop_last with_loop 0 1 handle (record { native = 80; data_ptr = 2 })
      Display.new_data 1 (Loop.new_data false) (omega arith) refl refl refl refl refl refl refl refl

global_lives_once_example :
    (t : State) × ((and_then
          (Global.construct_new 20 21 mock 1 0 3 one_display)
          (λ _. Global.destroy 1)
        ≡ ok tt t)
      × ((t.heap 2 ≡ none)
          × (t.calls
              ≡ wl_global_destroy 60
                ∷ wl_global_set_user_data 60 0
                ∷ wl_global_create 5 20 3 2 21
                ∷ [])))
unfolding find_key
global_lives_once_example =
    global_lives_once mock one_display 1 0 20 21 3 60 handle refl (omega arith) (omega arith) refl
      (omega arith)

-- A display (0), a global (1) with the function 32 for its bindings, and a client (2) with its data
abbrev busy : State
busy = record {
  objs =
      (0, handle)
      ∷ (1, record { native = 60; data_ptr = 2 })
      ∷ (2, record { native = 6; data_ptr = 3 })
      ∷ [];
  heap = λ d.
      if d == 1
      then some (counted 1)
      else if d == 2
      then some
          (record { counter = 1; members = of_global (record { removed = false; bind = 32 }) })
      else if d == 3
      then some (record {
        counter = 1;
        members = of_client (Client.new_data (record { native = 6; data_ptr = 0 }));
      })
      else none;
  next = 4;
  calls = wl_client_set_user_data 6 3 ∷ [];
}

client_data-Shared_example :
    Shared
      (λ q. of_client (Client.new_data q))
      Client.listeners
      wl_client_get_user_data
      0
      1
      6
      empty
      (and_then (Client.construct mock 0 6 empty) (λ _. Client.construct mock 1 6))
unfolding log
client_data-Shared_example =
    client_data-Shared mock empty 0 1 6 (omega arith) (omega arith) refl refl refl

-- The client's data has the listener.
abbrev one_listener : List ServerCall → ℕ → List ℕ
one_listener cs c = 3 ∷ []

bind_lem_example :
    (t : State) × ((bind_func mock one_listener 22 33 34 10 11 12 13 6 2 3 9 busy ≡ ok tt t)
      × ((t.objs ≡ busy.objs)
          × ((t.heap 4 ≡ some (record { counter = 1; members = of_resource Resource.new_data }))
              × ((t.heap 5
                    ≡ some (record {
                      counter = 2;
                      members = of_resource (record Resource.new_data { events = 33 });
                    }))
                  × (t.calls
                      ≡ handler 32 (12 ∷ 13 ∷ [])
                        ∷ resource_calls 70 5 34 (
                            listener_calls 11 70 4 0 (
                              wl_resource_create 6 22 3 9
                              ∷ wl_client_get_user_data 6
                              ∷ busy.calls)))))))
bind_lem_example =
    bind_lem mock one_listener busy 22 33 34 10 11 12 13 6 2 3 9 3 70 1 1
      (Client.new_data (record { native = 6; data_ptr = 0 }))
      (record { removed = false; bind = 32 }) refl refl (omega arith) refl (omega arith) refl refl
      (omega arith) refl refl refl refl (omega arith) (omega arith)

generated_resource_lem_example :
    construct_generated mock one_listener 22 33 34 10 2 9 3 busy
    ≡ ok tt (
        generated_state 33 34 10 70 (
          listened_state 10 70 0
            (record busy { calls = wl_resource_create 6 22 9 3 ∷ busy.calls })))
unfolding find_key
generated_resource_lem_example =
    generated_resource_lem mock one_listener 22 33 34 busy 10 2
      (record { native = 6; data_ptr = 3 }) refl (omega arith) 1
      (Client.new_data (record { native = 6; data_ptr = 0 })) refl (omega arith) 70 9 3
      (omega arith) refl refl refl

borrowed_loop_stays_example :
    (t : State) × ((and_then (get_event_loop mock 5 0 busy) (λ _. Loop.destroy 5) ≡ ok tt t)
      × ((t.objs ≡ busy.objs)
          × ((t.heap 4 ≡ some (record { counter = 0; members = of_loop (Loop.new_data false) }))
              × (t.calls
                  ≡ wl_event_loop_add_destroy_listener 80 4
                    ∷ wl_event_loop_get_destroy_listener 80
                    ∷ wl_display_get_event_loop 5
                    ∷ busy.calls))))
unfolding find_key
borrowed_loop_stays_example =
    borrowed_loop_stays mock busy 0 5 80 handle refl (omega arith) refl (omega arith) refl

-- A library that knows the data of two clients, the same at each call
abbrev settled : Env ServerCall
settled = record {
  pointer = λ cs c. elim c [ wl_client_get_user_data p ↦ if p == 6 then 1 else 2 | _ ↦ 0 ];
  int = λ cs c. pos 0;
  errno = λ cs. 0;
}

abbrev client_cell : ℕ → Cell
client_cell p = record {
  counter = 1;
  members = of_client (Client.new_data (record { native = p; data_ptr = 0 }));
}

abbrev two_clients : State
two_clients = record {
  objs = (0, record { native = 5; data_ptr = 9 }) ∷ [];
  heap =
      λ d. if d == 1 then some (client_cell 6) else if d == 2 then some (client_cell 7) else none;
  next = 3;
  calls = [];
}

abbrev data_of : ℕ → ℕ
data_of p = if p == 6 then 1 else 2

abbrev two_listed : List ServerCall → ℕ → List ℕ
two_listed cs d = 6 ∷ 7 ∷ []

client_list_lem_example :
    ((0 + 5 ≡ 0)
      × (get_client_list settled two_listed 0 19 20 two_clients
          ≡ thrown (runtime_error "display is null.") two_clients))
    ⊎ ((0 + 5 ≢ 0)
        × Lists settled data_of 20
            (6 ∷ 7 ∷ [])
            (record two_clients { calls = wl_display_get_client_list 5 ∷ [] })
            (get_client_list settled two_listed 0 19 20 two_clients))
unfolding find_key
client_list_lem_example =
    client_list_lem settled data_of two_listed 0 19 20 (record { native = 5; data_ptr = 9 })
      two_clients (omega arith) refl
      (
        record {
          not_null = omega arith;
          has_data = omega arith;
          answers = λ cs. refl;
          cell = client_cell 6;
          there = refl;
        },
        (
          record {
            not_null = omega arith;
            has_data = omega arith;
            answers = λ cs. refl;
            cell = client_cell 7;
            there = refl;
          },
          tt,
        ),
      )
