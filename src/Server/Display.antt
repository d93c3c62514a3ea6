-- ===== src/Server/Display.antt =====
-- `display_t` of src/wayland-server.cpp.
pub mod Handles
use waylandpp.Prelude.{ℕ, Bool, ◌==◌, if◌then◌else◌, [], ◌∷◌, List, some, none}
use waylandpp.Prelude.Int.{ℤ}
use waylandpp.Runtime.{runtime_error, pure, throw, undefined, ◌>>=◌, ◌>>◌, Env}
use waylandpp.Server.Store.{
  Handle, Cell, Members, of_display, DisplayData, ServerCall, wl_display_create,
  wl_display_get_destroy_listener, wl_display_destroy_clients, wl_display_destroy,
  wl_display_terminate, wl_display_run, wl_display_flush_clients, wl_display_get_serial,
  wl_display_next_serial, wl_display_add_socket_auto, wl_display_add_destroy_listener,
  wl_display_add_client_created_listener, wl_display_add_socket, wl_display_add_socket_fd,
  wl_display_set_global_filter, wl_display_set_default_max_buffer_size, State, Exec, get, load, put,
  emplace, calls_so_far, store, call, ask, ask_int, notify, c_ptr, retain, release, bare, init_by,
  wrap_by, copy_construct_by, swap, move_construct_by, copy_assign_by, destroy_by,
}
use waylandpp.Server.Client
use waylandpp.Server.Resource
use waylandpp.Server.Loop

abbrev pub new_data : DisplayData
new_data = record { destroy = 0; client_created = 0; filter_func = 0 }

-- What `display_t::init` makes known to the library: the listeners, at the address of the data
abbrev pub listeners : Handle → List ServerCall
listeners p =
    wl_display_add_destroy_listener p.native p.data_ptr
    ∷ wl_display_add_client_created_listener p.native p.data_ptr
    ∷ []

unfoldable pub init : ℕ → Exec (Unit {0})
init n = init_by (λ p. of_display new_data) listeners n

-- `display_t::destroy_func`, on the data that has the listener
unfoldable pub destroy_func : Cell → Exec (Unit {0})
destroy_func c = elim c.members [ of_display m ↦ notify m.destroy [] | _ ↦ undefined ]

-- The functions that the library calls for what ends with a display, each with the address of its data:
-- of a client `destroy_func`, `destroy_late_func` and `user_data_destroy_func`, of a resource and of an
-- event loop `destroy_func`
pub data Ending : Type 0 where
  client_ends client_ends_late client_data_ends resource_ends loop_ends : ℕ → Ending

unfoldable pub end_one : Ending → Exec (Unit {0})
end_one (client_ends d) = do c ← load d; Client.destroy_func c
end_one (client_ends_late d) = do c ← load d; Client.destroy_late_func c
end_one (client_data_ends d) = Client.user_data_destroy_func d
end_one (resource_ends d) = Resource.destroy_func d
end_one (loop_ends d) = do c ← load d; Loop.destroy_func d c

unfoldable pub end_all : List Ending → Exec (Unit {0})
unfolding end_one
end_all [] = pure tt
end_all (e ∷ es) = let rest = end_all es in do end_one e; rest

-- What `display_t::fini` does when the counter has come to 0. `ends` says which functions the library
-- calls in the call that was made last; `wl_display_destroy` notifies the display's listener first.
unfoldable pub destroy_display :
    (List ServerCall → ℕ → List Ending) → Handle → Cell → Exec (Unit {0})
unfolding destroy_func end_all
destroy_display ends p c = do
  n ← c_ptr "display is null." p
  call (wl_display_destroy_clients n)
  cs ← calls_so_far
  end_all (ends cs n)
  call (wl_display_destroy n)
  destroy_func c
  ds ← calls_so_far
  end_all (ends ds n)
  store p.data_ptr none

-- `display_t::fini`
unfoldable pub fini : (List ServerCall → ℕ → List Ending) → Handle → Exec (Unit {0})
unfolding destroy_display
fini ends p = release (destroy_display ends) p

-- `display_t()`
unfoldable pub construct_new : Env ServerCall → ℕ → Exec (Unit {0})
unfolding init
construct_new env n = do
  p ← ask env wl_display_create
  if p == 0
      then throw (runtime_error "Failed to create display.")
      else do emplace n (bare p); init n

-- `display_t(wl_display *)`, with `wl_display_get_user_data`: the listener that the library has is
-- the data's.
unfoldable pub construct : Env ServerCall → ℕ → ℕ → Exec (Unit {0})
unfolding init
construct env n p = wrap_by env "display is null." wl_display_get_destroy_listener init n p

unfoldable pub copy_construct : ℕ → ℕ → Exec (Unit {0})
copy_construct n m = copy_construct_by retain n m

unfoldable pub move_construct : ℕ → ℕ → Exec (Unit {0})
move_construct n m = move_construct_by n m

unfoldable pub copy_assign : (List ServerCall → ℕ → List Ending) → ℕ → ℕ → Exec (Unit {0})
unfolding fini
copy_assign ends n m = copy_assign_by (fini ends) retain n m

unfoldable pub move_assign : ℕ → ℕ → Exec (Unit {0})
move_assign n m = swap n m

-- `~display_t()`
unfoldable pub destroy : (List ServerCall → ℕ → List Ending) → ℕ → Exec (Unit {0})
unfolding fini
destroy ends n = destroy_by (fini ends) n

-- The methods that only call the library, with the display of the handle
abbrev pub native : ℕ → Exec ℕ
native n = do p ← get n; c_ptr "display is null." p

-- `operator==`
unfoldable pub is_equal : ℕ → ℕ → Exec Bool
is_equal n m = do p ← native n; q ← native m; pure (p == q)

unfoldable pub add_socket : Env ServerCall → ℕ → ℕ → Exec ℤ
add_socket env n name = do p ← native n; ask_int env (wl_display_add_socket p name)

unfoldable pub add_socket_auto : Env ServerCall → ℕ → Exec ℕ
add_socket_auto env n = do p ← native n; ask env (wl_display_add_socket_auto p)

unfoldable pub add_socket_fd : Env ServerCall → ℕ → ℕ → Exec ℤ
add_socket_fd env n fd = do p ← native n; ask_int env (wl_display_add_socket_fd p fd)

unfoldable pub terminate : ℕ → Exec (Unit {0})
terminate n = do p ← native n; call (wl_display_terminate p)

unfoldable pub run : ℕ → Exec (Unit {0})
run n = do p ← native n; call (wl_display_run p)

unfoldable pub flush_clients : ℕ → Exec (Unit {0})
flush_clients n = do p ← native n; call (wl_display_flush_clients p)

unfoldable pub get_serial : Env ServerCall → ℕ → Exec ℕ
get_serial env n = do p ← native n; ask env (wl_display_get_serial p)

unfoldable pub next_serial : Env ServerCall → ℕ → Exec ℕ
next_serial env n = do p ← native n; ask env (wl_display_next_serial p)

unfoldable pub set_default_max_buffer_size : ℕ → ℕ → Exec (Unit {0})
set_default_max_buffer_size n size = do
  p ← native n
  call (wl_display_set_default_max_buffer_size p size)

-- A change of the members of a display's data; on other data it would be undefined behaviour.
unfoldable pub modify : (DisplayData → DisplayData) → ℕ → Exec (Unit {0})
modify f d = do
  c ← load d
  elim c.members [
    | of_display m ↦ store d (some (record c { members = of_display (f m) }))
    | _ ↦ undefined
  ]

-- `on_destroy` and `on_client_created`, to which the program assigns a function
unfoldable pub on_destroy : ℕ → ℕ → Exec (Unit {0})
unfolding modify
on_destroy n func = do p ← get n; modify (λ m. record m { destroy = func }) p.data_ptr

unfoldable pub on_client_created : ℕ → ℕ → Exec (Unit {0})
unfolding modify
on_client_created n func = do p ← get n; modify (λ m. record m { client_created = func }) p.data_ptr

unfoldable pub set_global_filter : ℕ → ℕ → Exec (Unit {0})
unfolding modify
set_global_filter n filter = do
  p ← get n
  modify (λ m. record m { filter_func = filter }) p.data_ptr
  d ← c_ptr "display is null." p
  call (wl_display_set_global_filter d p.data_ptr)

-- `user_data`: the address of the data whose member the reference is
unfoldable pub user_data : ℕ → Exec ℕ
user_data n = do p ← get n; _ ← load p.data_ptr; pure p.data_ptr
