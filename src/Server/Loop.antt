-- ===== src/Server/Loop.antt =====
-- `event_loop_t` and `event_source_t` of src/wayland-server.cpp.
pub mod Handles
pub mod Sources
use waylandpp.Prelude.{
  ℕ, suc, ◌+◌, Bool, true, false, ◌==◌, if◌then◌else◌, List, [], ◌∷◌, ◌++◌, some, none,
}
use waylandpp.Prelude.Int.{ℤ}
use waylandpp.Runtime.{runtime_error, pure, throw, undefined, ◌>>=◌, ◌>>◌, Env}
use waylandpp.Server.Store.{
  Handle, Cell, Members, of_loop, LoopData, ServerCall, wl_event_loop_create,
  wl_event_loop_get_destroy_listener, wl_event_loop_destroy, wl_event_loop_dispatch_idle,
  wl_event_loop_get_fd, wl_event_source_check, wl_event_loop_add_destroy_listener,
  wl_event_loop_add_timer, wl_event_loop_add_idle, wl_event_loop_dispatch,
  wl_event_source_timer_update, wl_event_source_fd_update, wl_event_loop_add_fd,
  wl_event_loop_add_signal, handler, State, Exec, get, load, put, emplace, store, call, ask,
  ask_int, notify, c_ptr, retain, release, bare, init_by, wrap_by, copy_construct_by, swap,
  move_construct_by, copy_assign_by, destroy_by,
}

abbrev pub new_data : Bool → LoopData
new_data do_delete = record {
  destroy = 0;
  fd_funcs = [];
  timer_funcs = [];
  signal_funcs = [];
  idle_funcs = [];
  do_delete = do_delete;
}

abbrev pub listeners : Handle → List ServerCall
listeners p = wl_event_loop_add_destroy_listener p.native p.data_ptr ∷ []

-- `event_loop_t::init`, with the value that `do_delete` has when the constructor is done
unfoldable pub init : Bool → ℕ → Exec (Unit {0})
init do_delete n = init_by (λ p. of_loop (new_data do_delete)) listeners n

-- `event_loop_t::destroy_func`, on the data at `d` that has the listener
unfoldable pub destroy_func : ℕ → Cell → Exec (Unit {0})
destroy_func d c = do
  elim c.members [ of_loop m ↦ notify m.destroy [] | _ ↦ undefined ]
  store d none

-- What `event_loop_t::fini` does when the counter has come to 0; `wl_event_loop_destroy` notifies
-- the listener. The data of a loop that the display manages stays.
unfoldable pub destroy_loop : Handle → Cell → Exec (Unit {0})
unfolding destroy_func
destroy_loop p c = elim c.members [
  | of_loop m ↦
      if m.do_delete
      then (do call (wl_event_loop_destroy p.native); destroy_func p.data_ptr c)
      else pure tt
  | _ ↦ undefined
]

-- `event_loop_t::fini`
unfoldable pub fini : Handle → Exec (Unit {0})
unfolding destroy_loop
fini p = release destroy_loop p

-- `event_loop_t()`
unfoldable pub construct_new : Env ServerCall → ℕ → Exec (Unit {0})
unfolding init
construct_new env n = do p ← ask env wl_event_loop_create; emplace n (bare p); init true n

-- `event_loop_t(wl_event_loop *)`, with `wl_event_loop_get_user_data`
unfoldable pub construct : Env ServerCall → ℕ → ℕ → Exec (Unit {0})
unfolding init
construct env n p =
    wrap_by env "event_loop is null." wl_event_loop_get_destroy_listener (init false) n p

unfoldable pub copy_construct : ℕ → ℕ → Exec (Unit {0})
copy_construct n m = copy_construct_by retain n m

unfoldable pub move_construct : ℕ → ℕ → Exec (Unit {0})
move_construct n m = move_construct_by n m

unfoldable pub copy_assign : ℕ → ℕ → Exec (Unit {0})
unfolding fini
copy_assign n m = copy_assign_by fini retain n m

unfoldable pub move_assign : ℕ → ℕ → Exec (Unit {0})
move_assign n m = swap n m

-- `~event_loop_t()`
unfoldable pub destroy : ℕ → Exec (Unit {0})
unfolding fini
destroy n = destroy_by fini n

abbrev pub native : ℕ → Exec ℕ
native n = do p ← get n; c_ptr "event_loop is null." p

-- `operator==`
unfoldable pub is_equal : ℕ → ℕ → Exec Bool
is_equal n m = do p ← native n; q ← native m; pure (p == q)

unfoldable pub dispatch : Env ServerCall → ℕ → ℕ → Exec ℤ
dispatch env n timeout = do p ← native n; ask_int env (wl_event_loop_dispatch p timeout)

unfoldable pub dispatch_idle : ℕ → Exec (Unit {0})
dispatch_idle n = do p ← native n; call (wl_event_loop_dispatch_idle p)

unfoldable pub get_fd : Env ServerCall → ℕ → Exec ℤ
get_fd env n = do p ← native n; ask_int env (wl_event_loop_get_fd p)

unfoldable pub modify : (LoopData → LoopData) → ℕ → Exec (Unit {0})
modify f d = do
  c ← load d
  elim c.members [
    | of_loop m ↦ store d (some (record c { members = of_loop (f m) }))
    | _ ↦ undefined
  ]

-- `event_source_t`: the handle that `refcounted_wrapper` shares, and the member `event_source`
pub record EventSource : Type 0 where
  pub object : ℕ
  pub event_source : ℕ

-- `event_source_t(wl_event_source *)`, which sets no member of its own
unfoldable pub new_source : ℕ → EventSource
new_source p = record { object = p; event_source = 0 }

-- `add_fd`, `add_timer`, `add_signal` and `add_idle`: the function is kept in the data, and the
-- library gets its address there.
unfoldable pub add_fd : Env ServerCall → ℕ → ℕ → ℕ → ℕ → Exec EventSource
unfolding modify new_source
add_fd env n fd mask func = do
  p ← get n
  modify (λ m. record m { fd_funcs = m.fd_funcs ++ func ∷ [] }) p.data_ptr
  source ← ask env (wl_event_loop_add_fd p.native fd mask func)
  pure (new_source source)

unfoldable pub add_timer : Env ServerCall → ℕ → ℕ → Exec EventSource
unfolding modify new_source
add_timer env n func = do
  p ← get n
  modify (λ m. record m { timer_funcs = m.timer_funcs ++ func ∷ [] }) p.data_ptr
  source ← ask env (wl_event_loop_add_timer p.native func)
  pure (new_source source)

unfoldable pub add_signal : Env ServerCall → ℕ → ℕ → ℕ → Exec EventSource
unfolding modify new_source
add_signal env n signal_number func = do
  p ← get n
  modify (λ m. record m { signal_funcs = m.signal_funcs ++ func ∷ [] }) p.data_ptr
  source ← ask env (wl_event_loop_add_signal p.native signal_number func)
  pure (new_source source)

unfoldable pub add_idle : Env ServerCall → ℕ → ℕ → Exec EventSource
unfolding modify new_source
add_idle env n func = do
  p ← get n
  modify (λ m. record m { idle_funcs = m.idle_funcs ++ func ∷ [] }) p.data_ptr
  source ← ask env (wl_event_loop_add_idle p.native func)
  pure (new_source source)

-- What the library calls for a source: the program's function that was added with it
unfoldable pub event_loop_fd_func : Env ServerCall → (fd mask func : ℕ) → Exec ℤ
event_loop_fd_func env fd mask func = ask_int env (handler func (fd ∷ mask ∷ []))

unfoldable pub event_loop_timer_func : Env ServerCall → ℕ → Exec ℤ
event_loop_timer_func env func = ask_int env (handler func [])

unfoldable pub event_loop_signal_func : Env ServerCall → (signal_number func : ℕ) → Exec ℤ
event_loop_signal_func env signal_number func = ask_int env (handler func (signal_number ∷ []))

unfoldable pub event_loop_idle_func : ℕ → Exec (Unit {0})
event_loop_idle_func func = call (handler func [])

-- `event_source_t::c_ptr`, which hides that of `refcounted_wrapper`
unfoldable pub source_c_ptr : EventSource → Exec ℕ
source_c_ptr e =
    if e.event_source == 0
    then throw (runtime_error "event_source is null.")
    else pure e.event_source

unfoldable pub timer_update : Env ServerCall → EventSource → ℕ → Exec ℤ
unfolding source_c_ptr
timer_update env e ms_delay = do
  p ← source_c_ptr e
  ask_int env (wl_event_source_timer_update p ms_delay)

unfoldable pub fd_update : Env ServerCall → EventSource → ℕ → Exec ℤ
unfolding source_c_ptr
fd_update env e mask = do p ← source_c_ptr e; ask_int env (wl_event_source_fd_update p mask)

unfoldable pub check : EventSource → Exec (Unit {0})
unfolding source_c_ptr
check e = do p ← source_c_ptr e; call (wl_event_source_check p)

-- `user_data`: the address of the data whose member the reference is
unfoldable pub user_data : ℕ → Exec ℕ
user_data n = do p ← get n; _ ← load p.data_ptr; pure p.data_ptr
