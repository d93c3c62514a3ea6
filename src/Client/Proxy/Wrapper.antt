-- ===== src/Client/Proxy/Wrapper.antt =====
-- Proxy wrappers: the constructor with `construct_proxy_wrapper_tag`, which keeps the wrapped proxy.
use waylandpp.Prelude.{
  ℕ, ◌+◌, ◌<◌, ◌≡◌, refl, ◌≢◌, ◌∙◌, false, some, ◌∷◌, arith, ◌==◌, ==_self, ne_false,
}
use waylandpp.Runtime.{ok, Env}
use waylandpp.Client.Proxy.Objects.{
  proxy_wrapper, display, Proxy, var, wrapped, get_obj, null_proxy, get-set_self, get-set_ne,
}
use waylandpp.Client.Proxy.{Call, wl_proxy_create_wrapper, ProxyData, State, get_ok, load_ok, c_ptr}
use waylandpp.Client.Proxy.Methods.{construct, copy_assign, construct_wrapper}
use waylandpp.Client.Proxy.Invariant.{count, Inv, no_refs, get-Fits}
use waylandpp.Client.Proxy.Copies.{
  copied, copied-Inv, called-Inv, live, copy_assign_ok, some_of_count,
}
use waylandpp.Client.Proxy.Construct.{
  wrapping, found, with_new, construct_new, with_new-Inv, lost_null,
}
use waylandpp.Client.Proxy.Lifecycle.{IsCopyable}

-- The source has a native object and data, and the library makes a wrapper with no user data.
pub record IsWrappable (env : Env Call) (m : ℕ) (s : State) : Type 0 where
  pub copyable : IsCopyable m s
  pub has_data : copyable.source.data_ptr ≢ 0
  pub has_native : copyable.source.proxy ≢ 0
  pub made : env.pointer s.calls (wl_proxy_create_wrapper copyable.source.proxy) ≢ 0
  pub bare :
      found env
        (env.pointer s.calls (wl_proxy_create_wrapper copyable.source.proxy))
        proxy_wrapper
        (wl_proxy_create_wrapper copyable.source.proxy ∷ s.calls)
      ≡ 0

module _ (env : Env Call) (lost : ℕ → ℕ) (s : State) (i : Inv lost no_refs s) (n m : ℕ)
    (h : IsWrappable env m s) (ne : (n == m) ≡ false) where
  w : Proxy
  w = h.copyable.source

  native : ℕ
  unfolding w
  native = env.pointer s.calls (wl_proxy_create_wrapper w.proxy)

  asked_state : State
  unfolding w
  asked_state = record s { calls = wl_proxy_create_wrapper w.proxy ∷ s.calls }

  c : (c : ProxyData) × (s.heap w.data_ptr ≡ some c)
  unfolding w
  c = some_of_count _ (live lost s i (var m) w h.copyable.there h.has_data)

  made_state : State
  unfolding native asked_state c
  made_state = with_new n native proxy_wrapper c.0.queue asked_state

  made-Inv : Inv lost no_refs made_state
  unfolding made_state
  made-Inv =
      with_new-Inv lost asked_state
        (called-Inv lost s i (wl_proxy_create_wrapper w.proxy ∷ s.calls)) n native proxy_wrapper
        c.0.queue refl

  older : w.data_ptr < s.next
  unfolding w
  older = ground (arith, i.fresh w.data_ptr, live lost s i (var m) w h.copyable.there h.has_data)

  still : get_obj (var m) made_state.objs ≡ some w
  unfolding made_state get_obj
  still = rw ne h.copyable.there

  wrapped_state : State
  unfolding made_state
  wrapped_state = copied (wrapped s.next) w made_state

  assigned : copy_assign (wrapped s.next) (var m) made_state ≡ ok tt wrapped_state
  unfolding wrapped_state
  assigned =
      copy_assign_ok lost made_state made-Inv (wrapped s.next) (var m) w still refl h.copyable.valid

  wrapped_state-Inv : Inv lost no_refs wrapped_state
  unfolding wrapped_state get_obj
  wrapped_state-Inv = lost_null lost made_state made-Inv n 0 display _ (
      copied-Inv lost made_state made-Inv (wrapped s.next) null_proxy w (rw (==_self s.next))
        (get-Fits (var m) w s.objs i.fits h.copyable.there, older)
        (live lost made_state made-Inv (var m) w still) (ground (arith, h.copyable.room, older)))

  constructed : construct env (var n) native proxy_wrapper c.0.queue asked_state ≡ ok tt made_state
  unfolding made_state
  constructed =
      construct_new env n native proxy_wrapper c.0.queue asked_state (ground (arith, h.made)) h.bare

  at_new :
      get_obj (var n) made_state.objs
      ≡ some (record (wrapping native proxy_wrapper) { data_ptr = s.next })
  unfolding made_state get_obj
  at_new = rw (==_self n)

  inner_null : get_obj (wrapped s.next) made_state.objs ≡ some null_proxy
  unfolding made_state get_obj
  inner_null = rw (==_self s.next)

  wraps_ok : (fuel : ℕ) → construct_wrapper env fuel (var n) (var m) s ≡ ok tt wrapped_state
  unfolding construct_wrapper asked_state native w c_ptr
  wraps_ok fuel =
      rw
        (
          get_ok (var m) w s h.copyable.there,
          ne_false w.proxy h.has_native,
          load_ok w.data_ptr c.0 asked_state c.1,
          constructed,
          get_ok (var n) _ made_state at_new,
          ne_false s.next (omega (arith, i.next_pos)),
          get_ok (wrapped s.next) _ made_state inner_null,
        )
        assigned

  inside : get_obj (wrapped s.next) wrapped_state.objs ≡ some w
  unfolding wrapped_state
  inside = get-set_self (wrapped s.next) w null_proxy made_state.objs inner_null

  outside :
      get_obj (var n) wrapped_state.objs
      ≡ some (record (wrapping native proxy_wrapper) { data_ptr = s.next })
  unfolding wrapped_state
  outside = get-set_ne (wrapped s.next) (var n) w made_state.objs refl ∙ at_new

  one_more : count (wrapped_state.heap w.data_ptr) ≡ count (s.heap w.data_ptr) + 1
  unfolding wrapped_state made_state asked_state w
  one_more = ground (arith, h.copyable.room, older, c.1)

  -- The wrapper keeps a copy of the proxy that it wraps. Where the source can be copied, has a
  -- native object and data with room for a reference, and the library makes a wrapper that has no user
  -- data, the constructor returns, on any fuel. The wrapper object then has what the library made, is of type
  -- `proxy_wrapper` and refers to the new data, the new data holds a copy of the source, the counter
  -- of the source's data is one higher, and every counter counts what it did plus what was added.
  pub construct_wrapper_lem :
      (fuel : ℕ)
      → (t : State) × (construct_wrapper env fuel (var n) (var m) s ≡ ok tt t)
        × Inv lost no_refs t
        × (get_obj (var n) t.objs
            ≡ some (record null_proxy {
              proxy = env.pointer s.calls (wl_proxy_create_wrapper h.copyable.source.proxy);
              data_ptr = s.next;
              type = proxy_wrapper;
            }))
        × (get_obj (wrapped s.next) t.objs ≡ some h.copyable.source)
        × (count (t.heap h.copyable.source.data_ptr)
            ≡ count (s.heap h.copyable.source.data_ptr) + 1)
  unfolding w native
  construct_wrapper_lem fuel =
      (wrapped_state, wraps_ok fuel, wrapped_state-Inv, outside, inside, one_more)
