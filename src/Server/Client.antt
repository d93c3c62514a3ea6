-- ===== src/Server/Client.antt =====
-- `client_t` of src/wayland-server.cpp: its destructor gives no reference up, and the library deletes
-- the data when the client is gone.
pub mod Handles
use waylandpp.Prelude.{ℕ, ◌==◌, if◌then◌else◌, Bool, true, false, [], ◌∷◌, List, some, none}
use waylandpp.Prelude.Int.{ℤ}
use waylandpp.Runtime.{ok, pure, undefined, ◌>>=◌, ◌>>◌, Env}
use waylandpp.Server.Store.{
  Handle, Cell, Members, of_client, ClientData, ServerCall, wl_client_create,
  wl_client_get_user_data, wl_client_flush, wl_client_get_fd, wl_client_get_credentials,
  wl_client_post_no_memory, wl_client_set_user_data, wl_client_add_destroy_listener,
  wl_client_add_destroy_late_listener, wl_client_add_resource_created_listener,
  wl_client_post_implementation_error, wl_client_set_max_buffer_size, State, Exec, get, load, put,
  emplace, erase, calls_so_far, of_display, store, call, ask, ask_int, notify, c_ptr, retain, bare,
  init_by, wrap_by, copy_construct_by, swap, move_construct_by, copy_assign_by, destroy_by,
}

abbrev pub new_data : Handle → ClientData
new_data p = record {
  client = p.native;
  destroy = 0;
  destroyed = false;
  destroy_late = 0;
  resource_created = 0;
}

abbrev pub listeners : Handle → List ServerCall
listeners p =
    wl_client_set_user_data p.native p.data_ptr
    ∷ wl_client_add_destroy_listener p.native p.data_ptr
    ∷ wl_client_add_destroy_late_listener p.native p.data_ptr
    ∷ wl_client_add_resource_created_listener p.native p.data_ptr
    ∷ []

-- `client_t::init`
unfoldable pub init : ℕ → Exec (Unit {0})
init n = init_by (λ p. of_client (new_data p)) listeners n

-- `client_t(wl_client *)`
unfoldable pub construct : Env ServerCall → ℕ → ℕ → Exec (Unit {0})
unfolding init
construct env n p = wrap_by env "client is null." wl_client_get_user_data init n p

-- `display_t::client_created_func`, on the data at `d`, with its client in `n`
unfoldable pub client_created_func : Env ServerCall → (n d cl : ℕ) → Exec (Unit {0})
unfolding construct
client_created_func env n d cl = do
  construct env n cl
  c ← load d
  elim c.members [ of_display m ↦ notify m.client_created (n ∷ []) | _ ↦ undefined ]
  erase n

-- What `wl_client_create` does to the program: it notifies the listeners of the display, which stand in
-- the data `ds`.
unfoldable pub notify_created : Env ServerCall → (n cl : ℕ) → List ℕ → Exec (Unit {0})
unfolding client_created_func
notify_created env n cl [] = pure tt
notify_created env n cl (d ∷ ds) =
    let rest = notify_created env n cl ds in do client_created_func env n d cl; rest

-- `client_t(display_t &, int)`; `listening` says which data have a listener for the new clients of a
-- display, and the object of such a listener stands in `n` before the new one does.
unfoldable pub construct_new :
    Env ServerCall → (List ServerCall → ℕ → List ℕ) → ℕ → (display fd : ℕ) → Exec (Unit {0})
unfolding init notify_created
construct_new env listening n display fd = do
  d ← get display
  p ← ask env (wl_client_create d.native fd)
  cs ← calls_so_far
  notify_created env n p (listening cs d.native)
  emplace n (bare p)
  init n

-- `~client_t()` and `operator=` give up nothing.
abbrev pub give_none : Handle → Exec (Unit {0})
give_none p = pure tt

unfoldable pub copy_construct : ℕ → ℕ → Exec (Unit {0})
copy_construct n m = copy_construct_by retain n m

unfoldable pub move_construct : ℕ → ℕ → Exec (Unit {0})
move_construct n m = move_construct_by n m

unfoldable pub copy_assign : ℕ → ℕ → Exec (Unit {0})
copy_assign n m = copy_assign_by give_none retain n m

unfoldable pub move_assign : ℕ → ℕ → Exec (Unit {0})
move_assign n m = swap n m

unfoldable pub destroy : ℕ → Exec (Unit {0})
destroy n = destroy_by give_none n

-- What the library calls with the data of the client: `destroy_func`, `destroy_late_func`, and at
-- the end `user_data_destroy_func`
unfoldable pub destroy_func : Cell → Exec (Unit {0})
destroy_func c = elim c.members [ of_client m ↦ notify m.destroy [] | _ ↦ undefined ]

unfoldable pub destroy_late_func : Cell → Exec (Unit {0})
destroy_late_func c = elim c.members [ of_client m ↦ notify m.destroy_late [] | _ ↦ undefined ]

unfoldable pub user_data_destroy_func : ℕ → Exec (Unit {0})
user_data_destroy_func d = store d none

-- The object after `c_ptr()`
abbrev pub native : ℕ → Exec ℕ
native n = do p ← get n; c_ptr "client is null." p

-- `operator==`
unfoldable pub is_equal : ℕ → ℕ → Exec Bool
is_equal n m = do p ← native n; q ← native m; pure (p == q)

unfoldable pub flush : ℕ → Exec (Unit {0})
flush n = do p ← native n; call (wl_client_flush p)

unfoldable pub get_fd : Env ServerCall → ℕ → Exec ℤ
get_fd env n = do p ← native n; ask_int env (wl_client_get_fd p)

-- `get_credentials`; what the library writes to the three references is an argument.
unfoldable pub get_credentials : (List ServerCall → ℕ → ℕ × (ℕ × ℕ)) → ℕ → Exec (ℕ × (ℕ × ℕ))
get_credentials credentials n = do
  p ← native n
  λ s. ok (credentials s.calls p) (record s { calls = wl_client_get_credentials p ∷ s.calls })

-- `user_data`: the address of the data whose member the reference is
unfoldable pub user_data : ℕ → Exec ℕ
user_data n = do p ← get n; _ ← load p.data_ptr; pure p.data_ptr

unfoldable pub post_no_memory : ℕ → Exec (Unit {0})
post_no_memory n = do p ← native n; call (wl_client_post_no_memory p)

unfoldable pub post_implementation_error : ℕ → ℕ → Exec (Unit {0})
post_implementation_error n message = do
  p ← native n
  call (wl_client_post_implementation_error p message)

unfoldable pub set_max_buffer_size : ℕ → ℕ → Exec (Unit {0})
set_max_buffer_size n size = do p ← get n; call (wl_client_set_max_buffer_size p.native size)

-- A change of the members of a client's data
unfoldable pub modify : (ClientData → ClientData) → ℕ → Exec (Unit {0})
modify f d = do
  c ← load d
  elim c.members [
    | of_client m ↦ store d (some (record c { members = of_client (f m) }))
    | _ ↦ undefined
  ]

-- `on_destroy`, `on_destroy_late` and `on_resource_created`, to which the program assigns a function
unfoldable pub on_destroy : ℕ → ℕ → Exec (Unit {0})
unfolding modify
on_destroy n func = do p ← get n; modify (λ m. record m { destroy = func }) p.data_ptr

unfoldable pub on_destroy_late : ℕ → ℕ → Exec (Unit {0})
unfolding modify
on_destroy_late n func = do p ← get n; modify (λ m. record m { destroy_late = func }) p.data_ptr

unfoldable pub on_resource_created : ℕ → ℕ → Exec (Unit {0})
unfolding modify
on_resource_created n func = do
  p ← get n
  modify (λ m. record m { resource_created = func }) p.data_ptr
