-- ===== src/Client/Proxy/Methods.antt =====
-- The constructors, assignments and methods of `proxy_t` (src/wayland-client.cpp).
use waylandpp.Prelude.{ℕ, Bool, true, not, ◌&&◌, ◌||◌, some, List, ◌∷◌, ltb, ◌==◌, if◌then◌else◌}
use waylandpp.Prelude.Int.{ℤ, is_negative}
use waylandpp.Runtime.{
  runtime_error, ok, thrown, fault, out_of_fuel, Outcome, pure, throw, and_then, ◌>>=◌, ◌>>◌, Env,
}
use waylandpp.Client.Proxy.Objects.{
  WrapperType, standard, display, foreign, proxy_wrapper, Proxy, Loc, wrapped, null_proxy, loc_eq,
}
use waylandpp.Client.Proxy.{
  Call, wl_proxy_get_user_data, wl_proxy_set_user_data, wl_proxy_create_wrapper,
  wl_proxy_add_dispatcher, wl_proxy_set_queue, wl_proxy_marshal_array,
  wl_proxy_marshal_array_constructor, wl_proxy_marshal_array_constructor_versioned, State, Exec,
  get, put, load, store, call, c_ptr, emplace, allocate, is_foreign, is_display, retain, destroy,
  erase,
}

-- The test at the end of `operator=`.
unfoldable pub is_valid : Proxy → Bool
is_valid p = elim p.type [
  | standard ↦ (p.data_ptr == 0 && p.proxy == 0) || (not (p.data_ptr == 0) && not (p.proxy == 0))
  | foreign ↦ p.data_ptr == 0 && not (p.proxy == 0)
  | proxy_wrapper ↦ not (p.data_ptr == 0) && not (p.proxy == 0)
  | display ↦ not (p.data_ptr == 0) && not (p.proxy == 0)
]

-- `operator=(const proxy_t &)`
unfoldable pub copy_assign : Loc → Loc → Exec (Unit {0})
unfolding is_valid retain
copy_assign l from = if loc_eq l from then pure tt else do
  p ← get from
  put l p
  if p.data_ptr == 0 then pure tt else retain p.data_ptr
  if is_valid p then pure tt else throw (runtime_error "Invalid proxy.")

-- A constructor that throws leaves no object.
abbrev pub abandon : Loc → Outcome State (Unit {0}) → Outcome State (Unit {0})
abandon l (ok a s) = ok a s
abandon l (thrown e s) = and_then (erase l s) (λ _. throw e)
abandon l fault = fault
abandon l out_of_fuel = out_of_fuel

-- `proxy_t(const proxy_t &)`
unfoldable pub copy_construct : Loc → Loc → Exec (Unit {0})
unfolding copy_assign
copy_construct l from = emplace l null_proxy >> λ s. abandon l (copy_assign l from s)

-- `operator=(proxy_t &&)`
unfoldable pub move_assign : Loc → Loc → Exec (Unit {0})
move_assign l from = do p ← get l; q ← get from; put l q; put from p

-- `proxy_t(proxy_t &&)`
unfoldable pub move_construct : Loc → Loc → Exec (Unit {0})
unfolding move_assign
move_construct l from = do emplace l null_proxy; move_assign l from

-- `set_interface`
unfoldable pub set_interface : Loc → ℕ → Exec (Unit {0})
set_interface l iface = do p ← get l; put l (record p { interface = iface })

-- `set_copy_constructor`
unfoldable pub set_copy_constructor : Loc → ℕ → Exec (Unit {0})
set_copy_constructor l func = do p ← get l; put l (record p { copy_constructor = func })

-- `set_destroy_opcode`
unfoldable pub set_destroy_opcode : Loc → ℕ → Exec (Unit {0})
set_destroy_opcode l opcode = do
  p ← get l
  if is_display p.type
      then throw (runtime_error "Cannot set destroy opcode on display.")
      else if p.data_ptr == 0
      then pure tt
      else do
        c ← load p.data_ptr
        store p.data_ptr (some (record c { has_destroy_opcode = true; destroy_opcode = opcode }))

-- `get_events`; a null pointer where there is no data
unfoldable pub get_events : Loc → Exec ℕ
get_events l = do
  p ← get l
  if p.data_ptr == 0 then pure 0 else do c ← load p.data_ptr; pure c.events

-- `set_queue`; the empty queue is 0, which the library is given as a null pointer
unfoldable pub set_queue : Loc → ℕ → Exec (Unit {0})
unfolding c_ptr
set_queue l queue = do
  p ← get l
  n ← c_ptr p
  call (wl_proxy_set_queue n queue)
  if p.data_ptr == 0
      then pure tt
      else do c ← load p.data_ptr; store p.data_ptr (some (record c { queue = queue }))

-- `proxy_has_object`, which `operator bool` returns
abbrev pub proxy_has_object : Proxy → Bool
proxy_has_object p = not (p.proxy == 0)

-- `operator==`
abbrev pub same_proxy : Proxy → Proxy → Bool
same_proxy p q = p.proxy == q.proxy

-- The methods that read a result of the library.
module _ (env : Env Call) where
  abbrev pub ask : Call → Exec ℕ
  ask c s = ok (env.pointer s.calls c) (record s { calls = c ∷ s.calls })

  abbrev pub ask_int : Call → Exec ℤ
  ask_int c s = ok (env.int s.calls c) (record s { calls = c ∷ s.calls })

  -- The data that a constructor finds, and 0 if there is none.
  unfoldable pub find_data : ℕ → WrapperType → Exec ℕ
  find_data p t = if is_display t then pure 0 else ask (wl_proxy_get_user_data p)

  -- `proxy_t(wl_proxy *, wrapper_type, event_queue_t const &)`
  unfoldable pub construct : Loc → ℕ → WrapperType → ℕ → Exec (Unit {0})
  unfolding retain find_data
  construct l p t queue = do
    let this = record null_proxy { proxy = p; type = t }
    emplace l this
    if is_foreign t || p == 0 then pure tt else do
      d ← find_data p t
      if d == 0
          then (do
            new ← allocate queue
            put l (record this { data_ptr = new })
            call (wl_proxy_set_user_data p new))
          else (do put l (record this { data_ptr = d }); retain d)

  -- `proxy_t(const proxy_t &, construct_proxy_wrapper_tag)`. The delegated constructor has run when
  -- the body throws, so the destructor runs then, on `fuel`.
  unfoldable pub construct_wrapper : ℕ → Loc → Loc → Exec (Unit {0})
  unfolding c_ptr construct copy_assign destroy
  construct_wrapper fuel l from = do
    w ← get from
    n ← c_ptr w
    p ← ask (wl_proxy_create_wrapper n)
    c ← load w.data_ptr
    construct l p proxy_wrapper c.queue
    this ← get l
    inner ← if this.data_ptr == 0 then pure null_proxy else get (wrapped this.data_ptr)
    if this.data_ptr == 0 || proxy_has_object inner
        then (do destroy fuel l; throw (runtime_error "Error wrapping proxy."))
        else copy_assign (wrapped this.data_ptr) from

  -- `set_events`
  unfoldable pub set_events : Loc → ℕ → ℕ → Exec (Unit {0})
  unfolding c_ptr
  set_events l events dispatcher = do
    p ← get l
    if p.data_ptr == 0 then pure tt else do
      c ← load p.data_ptr
      if not (c.events == 0) then pure tt else do
        store p.data_ptr (some (record c { events = events }))
        n ← c_ptr p
        r ← ask_int (wl_proxy_add_dispatcher n dispatcher p.data_ptr)
        if is_negative r then throw (runtime_error "wl_proxy_add_dispatcher failed.") else pure tt

  -- The call of `marshal_single` that leads to a new proxy.
  abbrev pub marshal_call : ℕ → ℕ → List ℕ → ℕ → ℕ → Call
  marshal_call n opcode args iface version =
      if ltb 0 version
      then wl_proxy_marshal_array_constructor_versioned n opcode args iface version
      else wl_proxy_marshal_array_constructor n opcode args iface

  -- `marshal_single`, its result constructed at `result`
  unfoldable pub marshal_single : Loc → Loc → ℕ → ℕ → List ℕ → ℕ → Exec (Unit {0})
  marshal_single result l opcode iface args version = do
    this ← get l
    if iface == 0
        then (do call (wl_proxy_marshal_array this.proxy opcode args); emplace result null_proxy)
        else do
          n ← c_ptr this
          p ← ask (marshal_call n opcode args iface version)
          if p == 0 then throw (runtime_error "wl_proxy_marshal_array_constructor") else do
            call (wl_proxy_set_user_data p 0)
            queue ← if this.data_ptr == 0 then pure 0 else (do c ← load this.data_ptr; pure c.queue)
            construct result p standard queue
