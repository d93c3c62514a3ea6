-- ===== src/Server/Callbacks.antt =====
-- The functions of src/wayland-server.cpp and include/wayland-server.hpp in which several classes of
-- handles meet: what libwayland-server calls back, and the methods that return a handle of another
-- class. The objects of a function stand in the variables that it is given.
pub mod Created
pub mod Bind
pub mod Orphans
pub mod Lists
pub mod Borrowed
use waylandpp.Prelude.{ℕ, suc, ◌==◌, if◌then◌else◌, Bool, true, false, List, [], ◌∷◌}
use waylandpp.Runtime.{pure, undefined, ◌>>=◌, ◌>>◌, Env}
use waylandpp.Server.Store.{
  of_display, of_client, of_global, ServerCall, wl_display_get_event_loop,
  wl_display_get_client_list, wl_client_for_each_resource, wl_client_get_object,
  wl_client_get_display, wl_resource_get_client, wl_global_get_display, handler, State, Exec, get,
  load, emplace, calls_so_far, call, ask, notify, c_ptr, null_handle, move_construct_by, destroy_by,
}
use waylandpp.Server.Display
use waylandpp.Server.Loop
use waylandpp.Server.Client
use waylandpp.Server.Resource
use waylandpp.Server.Global

-- The program's function for a binding: its arguments are copies, in `client` and `res`.
unfoldable pub handle_bind : (c r client res func : ℕ) → Exec (Unit {0})
handle_bind c r client res func = if func == 0 then pure tt else do
  Client.copy_construct client c
  Resource.copy_construct res r
  call (handler func (client ∷ res ∷ []))
  Resource.destroy res
  Client.destroy client

module _ (env : Env ServerCall) where
  -- `display_t::get_event_loop`, which returns into `out`
  unfoldable pub get_event_loop : (out n : ℕ) → Exec (Unit {0})
  get_event_loop out n = do
    p ← Display.native n
    l ← ask env (wl_display_get_event_loop p)
    Loop.construct env out l

  -- `client_t::get_display`
  unfoldable pub get_client_display : (out n : ℕ) → Exec (Unit {0})
  get_client_display out n = do
    p ← Client.native n
    d ← ask env (wl_client_get_display p)
    Display.construct env out d

  -- `client_t::get_object`: null for an id without object
  unfoldable pub get_object : (out n id : ℕ) → Exec (Unit {0})
  get_object out n id = do
    p ← get n
    r ← ask env (wl_client_get_object p.native id)
    if r == 0 then emplace out null_handle else Resource.construct env out r

  -- `resource_t::get_client`
  unfoldable pub get_client : (out n : ℕ) → Exec (Unit {0})
  get_client out n = do
    p ← Resource.native n
    c ← ask env (wl_resource_get_client p)
    Client.construct env out c

  -- `global_base_t::get_display`
  unfoldable pub get_global_display : (out n : ℕ) → Exec (Unit {0})
  get_global_display out n = do
    p ← get n
    d ← ask env (wl_global_get_display p.native)
    Display.construct env out d

  -- `display_t::c_filter_func`, on the data at `d`: the answer of the program's function, whose
  -- arguments are the objects in `n` and `m`
  unfoldable pub c_filter_func : (n m d client global : ℕ) → Exec Bool
  c_filter_func n m d client global = do
    c ← load d
    Client.construct env n client
    Global.construct env m global
    answer ← elim c.members [
      | of_display o ↦ ask env (handler o.filter_func (n ∷ m ∷ []))
      | _ ↦ undefined
    ]
    Global.destroy m
    Client.destroy n
    pure (if answer == 0 then false else true)

  -- An element `make`s a temporary in `n` and moves it to the end of the list, at `at`, with the move
  -- constructor and the empty destructor that both classes have.
  unfoldable pub push_back : (make : ℕ → ℕ → Exec (Unit {0})) → (n at p : ℕ) → Exec (Unit {0})
  push_back make n at p = do make n p; move_construct_by at n; destroy_by (λ q. pure tt) n

  -- The loops of the two functions below, over what the library has in its list; the elements of the
  -- result stand from `at` on.
  unfoldable pub push_all : (make : ℕ → ℕ → Exec (Unit {0})) → (n at : ℕ) → List ℕ → Exec (List ℕ)
  unfolding push_back
  push_all make n at [] = pure []
  push_all make n at (p ∷ ps) =
      let rest = push_all make n (suc at) ps in do push_back make n at p; vs ← rest; pure (at ∷ vs)

  -- `display_t::get_client_list` of the display in `d`; `listed` says which clients the library has in
  -- the list of a display after the calls so far.
  unfoldable pub get_client_list :
      (listed : List ServerCall → ℕ → List ℕ) → (d n at : ℕ) → Exec (List ℕ)
  unfolding push_all
  get_client_list listed d n at = do
    p ← Display.native d
    call (wl_display_get_client_list p)
    cs ← calls_so_far
    push_all (Client.construct env) n at (listed cs p)

  -- `client_t::get_resource_list`, with `resource_iterator` for each resource that the library has of
  -- the client
  unfoldable pub get_resource_list :
      (listed : List ServerCall → ℕ → List ℕ) → (c n at : ℕ) → Exec (List ℕ)
  unfolding push_all
  get_resource_list listed c n at = do
    p ← Client.native c
    call (wl_client_for_each_resource p)
    cs ← calls_so_far
    push_all (Resource.construct env) n at (listed cs p)

  -- The constructor of a generated class, `name_t(const client_t &, uint32_t, int)`, as the scanner
  -- prints it (scanner/scanner.cpp); `events` and `dispatcher` are those of the class.
  unfoldable pub construct_generated :
      (listening : List ServerCall → ℕ → List ℕ)
      → (interface events dispatcher n client id version : ℕ) → Exec (Unit {0})
  construct_generated listening interface events dispatcher n client id version = do
    Resource.construct_new env listening n client interface id version
    Resource.set_events n events dispatcher

  -- `global_t::bind_func`, on the data at `d`, with the client in `c` and the resource in `r`
  unfoldable pub bind_func :
      (listening : List ServerCall → ℕ → List ℕ)
      → (interface events dispatcher c r client res : ℕ) → (cl d ver id : ℕ) → Exec (Unit {0})
  unfolding construct_generated handle_bind
  bind_func listening interface events dispatcher c r client res cl d ver id = do
    Client.construct env c cl
    construct_generated listening interface events dispatcher r c ver id
    o ← load d
    elim o.members [ of_global m ↦ handle_bind c r client res m.bind | _ ↦ undefined ]
    Resource.destroy r
    Client.destroy c
