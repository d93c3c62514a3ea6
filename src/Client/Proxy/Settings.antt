-- ===== src/Client/Proxy/Settings.antt =====
-- The methods of `proxy_t` that set or use its data: events, the destroy opcode, the queue, requests.
use waylandpp.Prelude.{ℕ, ◌≡◌, ◌≢◌, false, some, List, ◌∷◌, arith, ==_self, ne_false}
use waylandpp.Prelude.Int.{is_negative}
use waylandpp.Runtime.{ok, Env}
use waylandpp.Client.Proxy.Objects.{standard, Proxy, Loc, var, get_obj}
use waylandpp.Client.Proxy.{
  Call, wl_proxy_get_user_data, wl_proxy_set_user_data, wl_proxy_add_dispatcher, ProxyData, State,
  update, get_ok, load_ok, c_ptr,
}
use waylandpp.Client.Proxy.Methods.{set_events, get_events, marshal_single, marshal_call}
use waylandpp.Client.Proxy.Construct.{with_new, construct_new}

abbrev pub add_call : ℕ → ℕ → ℕ → Call
add_call n dispatcher d = wl_proxy_add_dispatcher n dispatcher d

-- The state in which the data of `p` holds the listener storage `events`.
abbrev pub with_events : Proxy → ProxyData → ℕ → ℕ → State → State
with_events p c events dispatcher s = record s {
  heap = update s.heap p.data_ptr (some (record c { events = events }));
  calls = wl_proxy_add_dispatcher p.proxy dispatcher p.data_ptr ∷ s.calls;
}

module _ (env : Env Call) (l : Loc) (p : Proxy) (c : ProxyData) (s : State)
    (here : get_obj l s.objs ≡ some p) (nz : p.data_ptr ≢ 0) (h : s.heap p.data_ptr ≡ some c) where
  set_events_first :
      (events dispatcher : ℕ)
      → p.proxy ≢ 0
      → c.events ≡ 0
      → is_negative (env.int s.calls (wl_proxy_add_dispatcher p.proxy dispatcher p.data_ptr))
        ≡ false
      → set_events env l events dispatcher s ≡ ok tt (with_events p c events dispatcher s)
  unfolding set_events c_ptr
  set_events_first events dispatcher native unset added = rw (
    get_ok l p s here,
    ne_false p.data_ptr nz,
    load_ok p.data_ptr c s h,
    unset,
    ne_false p.proxy native,
    added,
  )

  set_events_again :
      (events dispatcher : ℕ) → c.events ≢ 0 → set_events env l events dispatcher s ≡ ok tt s
  unfolding set_events
  set_events_again events dispatcher set =
      rw
        (get_ok l p s here, ne_false p.data_ptr nz, load_ok p.data_ptr c s h, ne_false c.events set)

module _ (env : Env Call) (l : Loc) (p : Proxy) (c : ProxyData) (s : State)
    (here : get_obj l s.objs ≡ some p) (nz : p.data_ptr ≢ 0) (h : s.heap p.data_ptr ≡ some c) where
  -- Events are set only once. The first call, on data without listener storage and when the
  -- library accepts the dispatcher, stores them and makes that one call; any later call with any
  -- arguments returns and changes nothing, so `get_events` returns the first ones.
  pub set_events_once :
      (first dispatcher second other : ℕ)
      → p.proxy ≢ 0
      → c.events ≡ 0
      → first ≢ 0
      → is_negative (env.int s.calls (wl_proxy_add_dispatcher p.proxy dispatcher p.data_ptr))
        ≡ false
      → let t = with_events p c first dispatcher s in
        (set_events env l first dispatcher s ≡ ok tt t)
        × (set_events env l second other t ≡ ok tt t)
        × (get_events l t ≡ ok first t)
  unfolding get_events
  set_events_once first dispatcher second other native unset some_events added = (
    set_events_first env l p c s here nz h first dispatcher native unset added,
    set_events_again env l p (record c { events = first }) (with_events p c first dispatcher s) here
        nz (rw (==_self p.data_ptr)) second other some_events,
    rw (
      get_ok l p (with_events p c first dispatcher s) here,
      ne_false p.data_ptr nz,
      load_ok p.data_ptr (record c { events = first }) (with_events p c first dispatcher s)
          (rw (==_self p.data_ptr)),
    ),
  )

-- The library returns the user data that was set last.
abbrev pub RemembersUserData : Env Call → Type 0
RemembersUserData env =
    (cs : List Call) (p v : ℕ)
    → env.pointer (wl_proxy_set_user_data p v ∷ cs) (wl_proxy_get_user_data p) ≡ v

-- A request that leads to a new proxy: if the library makes one, the result has new data, counted
-- once, whose queue is the one of the object that the request was sent on.
pub marshal_single_new :
    (env : Env Call) (r opcode iface version : ℕ) (args : List ℕ) (l : Loc) (this : Proxy)
    (c : ProxyData) (s : State)
    → RemembersUserData env
    → get_obj l s.objs ≡ some this
    → this.proxy ≢ 0
    → this.data_ptr ≢ 0
    → s.heap this.data_ptr ≡ some c
    → iface ≢ 0
    → let made = marshal_call env this.proxy opcode args iface version in
      let p = env.pointer s.calls made in
      p ≢ 0
      → marshal_single env (var r) l opcode iface args version s
        ≡ ok tt (
            with_new r p standard c.queue
              (record s { calls = wl_proxy_set_user_data p 0 ∷ made ∷ s.calls }))
unfolding marshal_single c_ptr
marshal_single_new env r opcode iface version args l this c s law here native nz h full made_it =
    let made = marshal_call env this.proxy opcode args iface version in
    let p = env.pointer s.calls made in
    rw
      (
        get_ok l this s here,
        ne_false iface full,
        ne_false this.proxy native,
        ne_false (env.pointer s.calls (marshal_call env this.proxy opcode args iface version))
            made_it,
        ne_false this.data_ptr nz,
        load_ok this.data_ptr c (record s { calls = wl_proxy_set_user_data p 0 ∷ made ∷ s.calls })
            h,
      )
      (construct_new env r p standard c.queue
        (record s { calls = wl_proxy_set_user_data p 0 ∷ made ∷ s.calls }) (ground (arith, made_it))
        (law (made ∷ s.calls) p 0))
