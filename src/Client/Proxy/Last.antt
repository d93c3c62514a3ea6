-- ===== src/Client/Proxy/Last.antt =====
-- When the native object goes: with the last copy, and not before.
use waylandpp.Prelude.{ℕ, suc, ◌≡◌, ◌≢◌, none, some, ◌++◌, ◌==◌, if◌then◌else◌}
use waylandpp.Client.Proxy.Objects.{Proxy, Loc, var, wrapped, get_obj, refs, null_proxy}
use waylandpp.Client.Proxy.{ProxyData, State, update, destroy}
use waylandpp.Client.Proxy.Invariant.{IsBalanced}
use waylandpp.Client.Proxy.Release.{native_calls, dropped, deleting}
use waylandpp.Client.Proxy.Destroy.{finished}

-- The state that the destructor leaves when other copies remain, and when it was the last one and
-- there is no wrapped proxy.
abbrev pub after_shared : Loc → Proxy → ProxyData → State → State
after_shared l p c s =
    finished l p (record s { heap = update s.heap p.data_ptr (some (dropped c)) })

abbrev pub DestroysOne : ℕ → Proxy → ProxyData → State → State → Type 0
DestroysOne n p c s t =
    (t.calls
      ≡ (if refs p.data_ptr s.objs == 1 then native_calls p (dropped c) ++ s.calls else s.calls))
    × (t.heap p.data_ptr ≡ (if refs p.data_ptr s.objs == 1 then none else some (dropped c)))

module _ (k n : ℕ) (p : Proxy) (c : ProxyData) (s : State) (i : IsBalanced s)
    (here : get_obj (var n) s.objs ≡ some p) (nz : p.data_ptr ≢ 0) (h : s.heap p.data_ptr ≡ some c)
    (inner : get_obj (wrapped p.data_ptr) s.objs ≡ some null_proxy) where
  wrapped_gone : State
  wrapped_gone = finished (wrapped p.data_ptr) null_proxy (deleting (destroy (suc k)) (var n) p s c)

  last_after : State
  unfolding wrapped_gone
  last_after =
      finished (var n) p (record wrapped_gone { heap = update wrapped_gone.heap p.data_ptr none })
