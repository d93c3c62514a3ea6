-- ===== src/Server/Resource.antt =====
-- `resource_t` of src/wayland-server.cpp: its destructor gives no reference up, and the data is deleted
-- when the library destroys the resource.
pub mod Handles
pub mod Events
use waylandpp.Prelude.{ℕ, ◌==◌, if◌then◌else◌, Bool, true, false, [], ◌∷◌, List, some, none}
use waylandpp.Runtime.{pure, undefined, ◌>>=◌, ◌>>◌, Env}
use waylandpp.Server.Store.{
  Handle, Cell, Members, of_resource, of_client, ResourceData, Dispatcher, dummy, generated,
  ServerCall, wl_resource_create, wl_resource_get_user_data, wl_resource_get_id,
  wl_resource_get_version, wl_resource_get_class, wl_resource_post_no_memory,
  wl_resource_set_user_data, wl_resource_add_destroy_listener, wl_resource_set_dispatcher,
  wl_resource_post_error, wl_resource_post_event_array, wl_resource_queue_event_array, State, Exec,
  get, load, put, emplace, erase, calls_so_far, store, call, ask, notify, c_ptr, retain,
  retain_some, bare, init_by, wrap_by, copy_construct_by, swap, move_construct_by, destroy_by,
}

abbrev pub new_data : ResourceData
new_data = record { events = 0; destroy = 0 }

abbrev pub listeners : Handle → List ServerCall
listeners p =
    wl_resource_set_user_data p.native p.data_ptr
    ∷ wl_resource_add_destroy_listener p.native p.data_ptr
    ∷ wl_resource_set_dispatcher p.native dummy p.data_ptr
    ∷ []

-- `resource_t::init`
unfoldable pub init : ℕ → Exec (Unit {0})
init n = init_by (λ p. of_resource new_data) listeners n

-- `resource_t(wl_resource *)`
unfoldable pub construct : Env ServerCall → ℕ → ℕ → Exec (Unit {0})
unfolding init
construct env n p = wrap_by env "resource is null." wl_resource_get_user_data init n p

-- `client_t::resource_created_func`, on the data at `d`, with its resource in `n`
unfoldable pub resource_created_func : Env ServerCall → (n d resource_ptr : ℕ) → Exec (Unit {0})
unfolding construct
resource_created_func env n d resource_ptr = do
  construct env n resource_ptr
  c ← load d
  elim c.members [ of_client m ↦ notify m.resource_created (n ∷ []) | _ ↦ undefined ]
  erase n

-- What `wl_resource_create` does to the program: it notifies the listeners of the client, which stand
-- in the data `ds`.
unfoldable pub notify_created : Env ServerCall → (n resource_ptr : ℕ) → List ℕ → Exec (Unit {0})
unfolding resource_created_func
notify_created env n r [] = pure tt
notify_created env n r (d ∷ ds) =
    let rest = notify_created env n r ds in do resource_created_func env n d r; rest

-- `resource_t(const client_t &, const wl_interface *, int, uint32_t)`; `listening` says which data have
-- a listener for the new resources of a client, and the object of such a listener stands in `n` before
-- the new one does.
unfoldable pub construct_new :
    Env ServerCall
    → (List ServerCall → ℕ → List ℕ)
    → ℕ
    → (client interface version id : ℕ) → Exec (Unit {0})
unfolding init notify_created
construct_new env listening n client interface version id = do
  q ← get client
  c ← c_ptr "client is null." q
  p ← ask env (wl_resource_create c interface version id)
  ds ← calls_so_far
  notify_created env n p (listening ds c)
  emplace n (bare p)
  init n

unfoldable pub copy_construct : ℕ → ℕ → Exec (Unit {0})
copy_construct n m = copy_construct_by retain_some n m

unfoldable pub move_construct : ℕ → ℕ → Exec (Unit {0})
move_construct n m = move_construct_by n m

-- `operator=(const resource_t &)`, which takes the data over only if there is any
unfoldable pub copy_assign : ℕ → ℕ → Exec (Unit {0})
copy_assign n m = if n == m then pure tt else do
  p ← get n
  q ← get m
  put n (record p { native = q.native })
  if q.data_ptr == 0 then pure tt else (do put n q; retain q.data_ptr)

unfoldable pub move_assign : ℕ → ℕ → Exec (Unit {0})
move_assign n m = swap n m

-- `~resource_t()`
unfoldable pub destroy : ℕ → Exec (Unit {0})
destroy n = destroy_by (λ p. pure tt) n

-- `resource_t::destroy_func`, on the data at `d` that has the listener
unfoldable pub destroy_func : ℕ → Exec (Unit {0})
destroy_func d = do
  c ← load d
  elim c.members [ of_resource m ↦ notify m.destroy [] | _ ↦ undefined ]
  store d none

-- The object after `c_ptr()`
abbrev pub native : ℕ → Exec ℕ
native n = do p ← get n; c_ptr "resource is null." p

-- `operator==` and `operator bool`
unfoldable pub is_equal : ℕ → ℕ → Exec Bool
is_equal n m = do p ← get n; q ← get m; pure (p.native == q.native)

unfoldable pub is_full : ℕ → Exec Bool
is_full n = do p ← get n; pure (if p.native == 0 then false else true)

-- The members of a resource's data, and a change of them
unfoldable pub fields : ℕ → Exec ResourceData
fields d = do c ← load d; elim c.members [ of_resource m ↦ pure m | _ ↦ undefined ]

unfoldable pub modify : (ResourceData → ResourceData) → ℕ → Exec (Unit {0})
modify f d = do
  c ← load d
  elim c.members [
    | of_resource m ↦ store d (some (record c { members = of_resource (f m) }))
    | _ ↦ undefined
  ]

unfoldable pub set_events : (n events dispatcher : ℕ) → Exec (Unit {0})
unfolding fields modify
set_events n events dispatcher = do
  p ← get n
  m ← fields p.data_ptr
  if m.events == 0
      then (do
        modify (λ m. record m { events = events }) p.data_ptr
        r ← c_ptr "resource is null." p
        call (wl_resource_set_dispatcher r (generated dispatcher) p.data_ptr))
      else pure tt

unfoldable pub get_events : ℕ → Exec ℕ
unfolding fields
get_events n = do p ← get n; m ← fields p.data_ptr; pure m.events

unfoldable pub post_event_array : ℕ → ℕ → List ℕ → Exec (Unit {0})
post_event_array n opcode args = do p ← native n; call (wl_resource_post_event_array p opcode args)

unfoldable pub queue_event_array : ℕ → ℕ → List ℕ → Exec (Unit {0})
queue_event_array n opcode args = do
  p ← native n
  call (wl_resource_queue_event_array p opcode args)

-- `post_event`, `queue_event` and `send_event` of the generated classes
unfoldable pub post_event : ℕ → ℕ → List ℕ → Exec (Unit {0})
unfolding post_event_array
post_event n opcode args = do p ← native n; post_event_array n opcode args

unfoldable pub queue_event : ℕ → ℕ → List ℕ → Exec (Unit {0})
unfolding queue_event_array
queue_event n opcode args = do p ← native n; queue_event_array n opcode args

unfoldable pub send_event : ℕ → Bool → ℕ → List ℕ → Exec (Unit {0})
unfolding post_event queue_event
send_event n post opcode args = if post then post_event n opcode args else queue_event n opcode args

unfoldable pub post_error : (n code message : ℕ) → Exec (Unit {0})
post_error n code message = do p ← native n; call (wl_resource_post_error p code message)

unfoldable pub post_no_memory : ℕ → Exec (Unit {0})
post_no_memory n = do p ← native n; call (wl_resource_post_no_memory p)

unfoldable pub get_id : Env ServerCall → ℕ → Exec ℕ
get_id env n = do p ← native n; ask env (wl_resource_get_id p)

unfoldable pub get_version : Env ServerCall → ℕ → Exec ℕ
get_version env n = do p ← get n; ask env (wl_resource_get_version p.native)

unfoldable pub get_class : Env ServerCall → ℕ → Exec ℕ
get_class env n = do p ← get n; ask env (wl_resource_get_class p.native)

-- `on_destroy`, to which the program assigns a function
unfoldable pub on_destroy : ℕ → ℕ → Exec (Unit {0})
unfolding modify
on_destroy n func = do p ← get n; modify (λ m. record m { destroy = func }) p.data_ptr

-- `user_data`: the address of the data whose member the reference is
unfoldable pub user_data : ℕ → Exec ℕ
user_data n = do p ← get n; _ ← load p.data_ptr; pure p.data_ptr
