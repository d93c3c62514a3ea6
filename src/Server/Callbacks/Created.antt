-- ===== src/Server/Callbacks/Created.antt =====
-- What `client_t::resource_created_func` does for a new resource, and the states and calls of the
-- constructors of resources.
use waylandpp.Prelude.{
  ℕ, suc, ◌≡◌, ◌≢◌, refl, false, some, List, [], ◌∷◌, arith, ◌==◌, ==_self, if◌then◌else◌, ◌++◌,
  ◌<◌,
}
use waylandpp.Prelude.Assoc.{erase_key}
use waylandpp.Runtime.{ok, Env}
use waylandpp.Server.Store.{
  Cell, of_client, of_resource, dummy, generated, ServerCall, wl_resource_get_user_data, ClientData,
  wl_resource_set_user_data, wl_resource_add_destroy_listener, wl_resource_set_dispatcher, handler,
  State, notify_ok, update, load_ok,
}
use waylandpp.Server.Store.Shared.{wrap_unknown}
use waylandpp.Server.Store.Wrap.{log}
use waylandpp.Server.Resource

-- The calls for a new resource, the last one first
abbrev pub resource_calls : (r d dispatcher : ℕ) → List ServerCall → List ServerCall
resource_calls r d dispatcher cs =
    wl_resource_set_dispatcher r (generated dispatcher) d
    ∷ wl_resource_set_dispatcher r dummy d
    ∷ wl_resource_add_destroy_listener r d
    ∷ wl_resource_set_user_data r d
    ∷ cs

-- The calls of the client's listener for the new resource `r`, with the program's function `f`
abbrev pub listener_calls : (n r d f : ℕ) → List ServerCall → List ServerCall
listener_calls n r d f cs =
    (if f == 0 then [] else handler f (n ∷ []) ∷ [])
    ++ wl_resource_set_dispatcher r dummy d
      ∷ wl_resource_add_destroy_listener r d
      ∷ wl_resource_set_user_data r d
      ∷ wl_resource_get_user_data r
      ∷ cs

abbrev pub bare_cell : Cell
bare_cell = record { counter = 1; members = of_resource Resource.new_data }

-- A new resource `r` in the variable `n`
abbrev pub created : (n r : ℕ) → State → State
created n r s = record {
  objs = (n, record { native = r; data_ptr = s.next }) ∷ s.objs;
  heap = update s.heap s.next (some bare_cell);
  next = suc s.next;
  calls =
      wl_resource_set_dispatcher r dummy s.next
      ∷ wl_resource_add_destroy_listener r s.next
      ∷ wl_resource_set_user_data r s.next
      ∷ s.calls;
}

-- The state that the client's listener leaves: the data of its own object, and no object
abbrev pub listened_state : (n r f : ℕ) → State → State
listened_state n r f s = record {
  objs = s.objs;
  heap =
      update s.heap s.next (some (record { counter = 1; members = of_resource Resource.new_data }));
  next = suc s.next;
  calls = listener_calls n r s.next f s.calls;
}

-- The state that the constructor of a generated class leaves
abbrev pub generated_state : (events dispatcher n r : ℕ) → State → State
generated_state events dispatcher n r s = record {
  objs = (n, record { native = r; data_ptr = s.next }) ∷ s.objs;
  heap =
      update
        (update s.heap s.next
          (some (record { counter = 1; members = of_resource Resource.new_data })))
        s.next
        (some (record {
          counter = 1;
          members = of_resource (record Resource.new_data { events = events });
        }));
  next = suc s.next;
  calls = resource_calls r s.next dispatcher s.calls;
}

-- The client's listener makes a handle of its own for a resource that the library has no data of.
pub listener_lem :
    (env : Env ServerCall) (s : State) (n d r k : ℕ) (m : ClientData)
    → r ≢ 0
    → env.pointer s.calls (wl_resource_get_user_data r) ≡ 0
    → s.heap d ≡ some (record { counter = k; members = of_client m })
    → d < s.next
    → Resource.notify_created env n r (d ∷ []) s ≡ ok tt (listened_state n r m.resource_created s)
unfolding Resource.notify_created Resource.resource_created_func Resource.construct Resource.init
    log erase_key
listener_lem env s n d r k m rz unknown there old =
    let one : State = record (created n r s) {
      calls =
          log (Resource.listeners (record { native = r; data_ptr = s.next }))
            (wl_resource_get_user_data r ∷ s.calls);
    } in
    let new : (s.next == d) ≡ false = ground (arith, old) in
    rw
      (
        wrap_unknown env "resource is null." (λ p. of_resource Resource.new_data) Resource.listeners
            wl_resource_get_user_data n r rz s unknown,
        load_ok d (record { counter = k; members = of_client m }) one (rw new there),
        notify_ok m.resource_created (n ∷ []) one,
        ==_self n,
      )
      refl
