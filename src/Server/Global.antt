-- ===== src/Server/Global.antt =====
-- `global_base_t` and `global_t` of src/wayland-server.cpp and include/wayland-server.hpp.
pub mod Handles
use waylandpp.Prelude.{ℕ, ◌==◌, if◌then◌else◌, Bool, true, false, some, none}
use waylandpp.Runtime.{pure, undefined, ◌>>=◌, ◌>>◌, Env}
use waylandpp.Server.Store.{
  Handle, Cell, Members, of_global, GlobalData, ServerCall, wl_global_create,
  wl_global_get_user_data, wl_global_get_interface, wl_global_destroy, wl_global_remove,
  wl_global_get_version, wl_global_set_user_data, wl_global_get_name, State, Exec, get, load, put,
  emplace, store, call, ask, c_ptr, allocate, retain_some, release, bare, wrap_by,
  copy_construct_by, swap, move_construct_by, copy_assign_by, destroy_by,
}

-- The constructor of `global_base_t` from its data; if the display's `c_ptr()` throws, there is no
-- object.
unfoldable pub construct_base :
    Env ServerCall → ℕ → (display interface version dat func : ℕ) → Exec (Unit {0})
construct_base env n display interface version dat func = do
  c ← load dat
  store dat (some (record c { counter = 1 }))
  d ← get display
  p ← c_ptr "display is null." d
  g ← ask env (wl_global_create p interface version dat func)
  emplace n (record { native = g; data_ptr = dat })

abbrev pub new_data : GlobalData
new_data = record { removed = false; bind = 0 }

-- `global_t(display_t &, unsigned int)`, with the interface and the `bind_func` of its class
unfoldable pub construct_new :
    (interface func : ℕ) → Env ServerCall → ℕ → (display version : ℕ) → Exec (Unit {0})
unfolding construct_base
construct_new interface func env n display version = do
  d ← allocate (of_global new_data)
  construct_base env n display interface version d func

-- What `global_base_t::fini` does when the counter has come to 0
unfoldable pub destroy_global : Handle → Cell → Exec (Unit {0})
destroy_global p c = do
  call (wl_global_set_user_data p.native 0)
  g ← c_ptr "global is null." p
  call (wl_global_destroy g)
  store p.data_ptr none

-- `global_base_t::fini`
unfoldable pub fini : Handle → Exec (Unit {0})
unfolding destroy_global
fini p = if p.data_ptr == 0 then pure tt else release destroy_global p

-- `global_base_t(wl_global *)`: a global that was destroyed has no data.
unfoldable pub construct : Env ServerCall → ℕ → ℕ → Exec (Unit {0})
construct env n p = wrap_by env "global is null." wl_global_get_user_data (λ _. pure tt) n p

unfoldable pub copy_construct : ℕ → ℕ → Exec (Unit {0})
copy_construct n m = copy_construct_by retain_some n m

unfoldable pub move_construct : ℕ → ℕ → Exec (Unit {0})
move_construct n m = move_construct_by n m

unfoldable pub copy_assign : ℕ → ℕ → Exec (Unit {0})
unfolding fini
copy_assign n m = copy_assign_by fini retain_some n m

unfoldable pub move_assign : ℕ → ℕ → Exec (Unit {0})
move_assign n m = swap n m

-- `~global_base_t()`
unfoldable pub destroy : ℕ → Exec (Unit {0})
unfolding fini
destroy n = destroy_by fini n

-- The object after `c_ptr()`
abbrev pub native : ℕ → Exec ℕ
native n = do p ← get n; c_ptr "global is null." p

unfoldable pub has_interface : Env ServerCall → ℕ → ℕ → Exec Bool
has_interface env n interface = do
  p ← native n
  i ← ask env (wl_global_get_interface p)
  pure (interface == i)

-- `operator==`
unfoldable pub is_equal : ℕ → ℕ → Exec Bool
is_equal n m = do p ← native n; q ← native m; pure (p == q)

-- A change of the members of a global's data
unfoldable pub modify : (GlobalData → GlobalData) → ℕ → Exec (Unit {0})
modify f d = do
  c ← load d
  elim c.members [
    | of_global m ↦ store d (some (record c { members = of_global (f m) }))
    | _ ↦ undefined
  ]

-- `data && !data->removed`
unfoldable pub is_removable : ℕ → Exec Bool
is_removable d = if d == 0 then pure false else do
  c ← load d
  elim c.members [ of_global m ↦ pure (if m.removed then false else true) | _ ↦ undefined ]

unfoldable pub remove : ℕ → Exec (Unit {0})
unfolding is_removable modify
remove n = do
  p ← get n
  b ← is_removable p.data_ptr
  if b
      then (do
        call (wl_global_remove p.native)
        modify (λ m. record m { removed = true }) p.data_ptr)
      else pure tt

-- With the client of the handle in `client`
unfoldable pub get_name : Env ServerCall → ℕ → ℕ → Exec ℕ
get_name env n client = do
  p ← get n
  q ← get client
  c ← c_ptr "client is null." q
  ask env (wl_global_get_name p.native c)

unfoldable pub get_version : Env ServerCall → ℕ → Exec ℕ
get_version env n = do p ← get n; ask env (wl_global_get_version p.native)

-- `on_bind`, to which the program assigns a function
unfoldable pub on_bind : ℕ → ℕ → Exec (Unit {0})
unfolding modify
on_bind n func = do p ← get n; modify (λ m. record m { bind = func }) p.data_ptr

-- `user_data`: the address of the data whose member the reference is, and 0 for the `dummy` that all globals
-- without data share
unfoldable pub user_data : ℕ → Exec ℕ
user_data n = do
  p ← get n
  if p.data_ptr == 0 then pure 0 else (do _ ← load p.data_ptr; pure p.data_ptr)
