-- ===== src/Client/Display/Connect.antt =====
-- The objects of type `display_t` (src/wayland-client.cpp): its constructors, its moves, and the requests and
-- the wrapper that it makes as a `proxy_t`. The results of `sync` and `get_registry` are the proxies that the
-- printed classes `callback_t` and `registry_t` are made from.
use Prim.Native.String.{String, len}
use waylandpp.Prelude.{ℕ, Option, none, some, [], ◌∷◌, ◌==◌, if◌then◌else◌}
use waylandpp.Prelude.Int.{ℤ}
use waylandpp.Runtime.{runtime_error, throw, ◌>>=◌, ◌>>◌, Env}
use waylandpp.Util.Shared
use waylandpp.Util.Shared.{wl_event_queue_destroy}
use waylandpp.Client.Proxy.Objects.{WrapperType, display, foreign, Loc, null_proxy}
use waylandpp.Client.Proxy.{
  Call, wl_display_connect_to_fd, wl_display_connect, wl_proxy_get_id, wl_proxy_get_class,
  wl_proxy_get_version, Exec, get, emplace, c_ptr, destroy,
}
use waylandpp.Client.Proxy.Methods.{
  ask, construct, construct_wrapper, set_interface, marshal_single, move_assign, proxy_has_object,
}

-- `name.empty() ? nullptr : name.c_str()`
abbrev pub display_name : String → Option String
display_name name = if len name == 0 then none else some name

-- `display_interface`, `callback_interface` and `registry_interface` are the addresses of the tables. `fuel` is for the
-- destructor of the base, which runs when the body of a constructor throws.
module _ (env : Env Call) (display_interface callback_interface registry_interface : ℕ) where
  -- What the three constructors do with the pointer that they have
  unfoldable pub construct_display : ℕ → Loc → ℕ → WrapperType → String → Exec (Unit {0})
  unfolding construct set_interface destroy
  construct_display fuel l p t message = do
    construct env l p t 0
    this ← get l
    if proxy_has_object this
        then set_interface l display_interface
        else (do destroy fuel l; throw (runtime_error message))

  -- `display_t(int)`
  unfoldable pub display_of_fd : ℕ → Loc → ℤ → Exec (Unit {0})
  unfolding construct_display
  display_of_fd fuel l fd = do
    p ← ask env (wl_display_connect_to_fd fd)
    construct_display fuel l p display
        "Could not connect to Wayland display server via file-descriptor"

  -- `display_t(const std::string &)`
  unfoldable pub display_of_name : ℕ → Loc → String → Exec (Unit {0})
  unfolding construct_display
  display_of_name fuel l name = do
    p ← ask env (wl_display_connect (display_name name))
    construct_display fuel l p display "Could not connect to Wayland display server via name"

  -- `display_t(wl_display *)`
  unfoldable pub display_of_pointer : ℕ → Loc → ℕ → Exec (Unit {0})
  unfolding construct_display
  display_of_pointer fuel l p =
      construct_display fuel l p foreign "Cannot construct display_t wrapper from nullptr"

  -- `sync` and `get_registry`: `marshal_constructor` with a null argument
  unfoldable pub sync : Loc → Loc → Exec (Unit {0})
  unfolding marshal_single
  sync result l = marshal_single env result l 0 callback_interface (0 ∷ []) 0

  unfoldable pub get_registry : Loc → Loc → Exec (Unit {0})
  unfolding marshal_single
  get_registry result l = marshal_single env result l 1 registry_interface (0 ∷ []) 0

  -- `proxy_create_wrapper`
  unfoldable pub proxy_create_wrapper : ℕ → Loc → Loc → Exec (Unit {0})
  unfolding construct_wrapper
  proxy_create_wrapper fuel result l = construct_wrapper env fuel result l

  -- `get_id`, `get_class` and `get_version` of `proxy_t`; the class is the address of its name.
  unfoldable pub get_id : Loc → Exec ℕ
  unfolding c_ptr
  get_id l = do p ← get l; n ← c_ptr p; ask env (wl_proxy_get_id n)

  unfoldable pub get_class : Loc → Exec ℕ
  unfolding c_ptr
  get_class l = do p ← get l; n ← c_ptr p; ask env (wl_proxy_get_class n)

  unfoldable pub get_version : Loc → Exec ℕ
  unfolding c_ptr
  get_version l = do p ← get l; n ← c_ptr p; ask env (wl_proxy_get_version n)

-- `operator=(display_t &&)` and `display_t(display_t &&)`
unfoldable pub display_move_assign : Loc → Loc → Exec (Unit {0})
unfolding move_assign
display_move_assign l from = move_assign l from

unfoldable pub display_move_construct : Loc → Loc → Exec (Unit {0})
unfolding display_move_assign
display_move_construct l from = do emplace l null_proxy; display_move_assign l from

-- `event_queue_t(wl_event_queue *)`, in the state of the wrappers
unfoldable pub event_queue : {C : Type 0} → ℕ → ℕ → Shared.Exec C (Unit {0})
event_queue l q = Shared.construct l q wl_event_queue_destroy
