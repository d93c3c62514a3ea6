-- ===== src/Client/Proxy/Release.antt =====
-- `proxy_release` and the destructor: what they do on each branch, and that they keep the counters.
use waylandpp.Prelude.{
  ℕ, ◌≡◌, ◌≢◌, true, false, none, some, List, [], ◌∷◌, ◌++◌, arith, ◌==◌, if◌then◌else◌, ne_false,
}
use waylandpp.Runtime.{ok, pure, dec32}
use waylandpp.Client.Proxy.Objects.{
  standard, display, foreign, proxy_wrapper, Proxy, Loc, wrapped, get_obj, set_obj,
}
use waylandpp.Client.Proxy.{
  Call, wl_proxy_marshal, wl_proxy_destroy, wl_proxy_wrapper_destroy, wl_display_disconnect,
  ProxyData, State, Exec, get_ok, load_ok, update, is_foreign, free_native, reset, release,
}

-- The calls that give up the native object, the last one first.
abbrev pub native_calls : Proxy → ProxyData → List Call
native_calls p c = if p.proxy == 0 then [] else elim p.type [
  | standard ↦
      wl_proxy_destroy p.proxy
      ∷ (if c.has_destroy_opcode then wl_proxy_marshal p.proxy c.destroy_opcode ∷ [] else [])
  | proxy_wrapper ↦ wl_proxy_wrapper_destroy p.proxy ∷ []
  | display ↦ wl_display_disconnect p.proxy ∷ []
  | foreign ↦ []
]

abbrev pub emptied : Proxy → Proxy
emptied p = record p { proxy = 0; data_ptr = 0 }

abbrev pub cleared : Loc → Proxy → State → State
cleared l p s = record s { objs = set_obj l (emptied p) s.objs }

abbrev pub dropped : ProxyData → ProxyData
dropped c = record c { counter = dec32 c.counter }

eq_true : (a : ℕ) → a ≡ 0 → (a == 0) ≡ true
eq_true a h = ground arith

free_native_ok :
    (p : Proxy) (c : ProxyData) (s : State)
    → is_foreign p.type ≡ false
    → (if p.proxy == 0 then pure tt else free_native p c) s
      ≡ ok tt (record s { calls = native_calls p c ++ s.calls })
unfolding free_native
free_native_ok p c s native = ground arith

module _ (destruct : Loc → Exec (Unit {0})) (l : Loc) (p : Proxy) (s : State) where
  pub reset_lem : get_obj l s.objs ≡ some p → reset l s ≡ ok tt (cleared l p s)
  unfolding reset
  reset_lem e = rw (get_ok l p s e)

  pub release_null :
      get_obj l s.objs ≡ some p → p.data_ptr ≡ 0 → release destruct l s ≡ ok tt (cleared l p s)
  unfolding release
  release_null e z = rw (get_ok l p s e, z, get_ok l p s e)

  pub release_shared :
      (c : ProxyData)
      → get_obj l s.objs ≡ some p
      → p.data_ptr ≢ 0
      → s.heap p.data_ptr ≡ some c
      → dec32 c.counter ≢ 0
      → release destruct l s
        ≡ ok tt (cleared l p (record s { heap = update s.heap p.data_ptr (some (dropped c)) }))
  unfolding release
  release_shared c e nz h more =
      rw (get_ok l p s e, ne_false _ nz, load_ok p.data_ptr c s h, ne_false _ more)
        (rw (get_ok l p (record s { heap = update s.heap p.data_ptr (some (dropped c)) }) e))

  -- The state in which the last copy's data is about to be deleted.
  abbrev pub deleting : ProxyData → State
  deleting c = record s {
    heap = update s.heap p.data_ptr (some (dropped c));
    calls = native_calls p (dropped c) ++ s.calls;
  }

  pub release_last :
      (c : ProxyData) (t : State)
      → get_obj l s.objs ≡ some p
      → p.data_ptr ≢ 0
      → s.heap p.data_ptr ≡ some c
      → dec32 c.counter ≡ 0
      → is_foreign p.type ≡ false
      → destruct (wrapped p.data_ptr) (deleting c) ≡ ok tt t
      → get_obj l t.objs ≡ some p
      → release destruct l s
        ≡ ok tt (cleared l p (record t { heap = update t.heap p.data_ptr none }))
  unfolding release
  release_last c t e nz h last native done kept =
      rw (get_ok l p s e, ne_false _ nz, load_ok p.data_ptr c s h, eq_true _ last)
        (rw (free_native_ok p (dropped c) _ native)
          (rw done (rw (get_ok l p (record t { heap = update t.heap p.data_ptr none }) kept))))
