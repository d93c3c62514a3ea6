-- ===== src/Server/Resource/Events.antt =====
-- `resource_t::set_events`: a resource gets its events and its dispatcher once.
use waylandpp.Prelude.{
  ℕ, ◌≡◌, ◌≢◌, refl, some, ◌∷◌, arith, ◌==◌, ==_self, if◌then◌else◌, Bool-cases, inl, inr, ne_false,
}
use waylandpp.Prelude.Assoc.{find_key}
use waylandpp.Runtime.{ok, and_then}
use waylandpp.Server.Store.{
  Handle, of_resource, ResourceData, wl_resource_set_dispatcher, generated, State, load_ok, get_ok,
  update,
}
use waylandpp.Server.Resource.{set_events, get_events, fields, modify}

modify_lem :
    (f : ResourceData → ResourceData) (d k : ℕ) (m : ResourceData) (s : State)
    → s.heap d ≡ some (record { counter = k; members = of_resource m })
    → modify f d s
      ≡ ok tt (record s {
        heap = update s.heap d (some (record { counter = k; members = of_resource (f m) }));
      })
unfolding modify
modify_lem f d k m s there = rw (load_ok d _ s there) refl

module _ (s : State) (n : ℕ) (p : Handle) (k : ℕ) (m : ResourceData)
    (here : find_key n s.objs ≡ some p)
    (there : s.heap p.data_ptr ≡ some (record { counter = k; members = of_resource m })) where
  get_events_lem : get_events n s ≡ ok m.events s
  unfolding get_events fields
  get_events_lem = rw (get_ok n p s here, load_ok p.data_ptr _ s there) refl

  set_again : (e f : ℕ) → m.events ≢ 0 → set_events n e f s ≡ ok tt s
  unfolding set_events fields
  set_again e f nz = rw (get_ok n p s here, load_ok p.data_ptr _ s there, ne_false m.events nz) refl

  pub set_first :
      (e f : ℕ)
      → m.events ≡ 0
      → p.native ≢ 0
      → set_events n e f s
        ≡ ok tt (record s {
          heap =
              update s.heap p.data_ptr
                (some (record { counter = k; members = of_resource (record m { events = e }) }));
          calls = wl_resource_set_dispatcher p.native (generated f) p.data_ptr ∷ s.calls;
        })
  unfolding set_events fields
  set_first e f null nz =
      rw
        (
          get_ok n p s here,
          load_ok p.data_ptr _ s there,
          null,
          modify_lem (λ o. record o { events = e }) p.data_ptr k m s there,
          ne_false p.native nz,
        )
        refl

-- Of two settings of a resource's events the first one stands, unless there were events before: they
-- are what `get_events` returns, and the library gets one dispatcher, the one that belongs to them.
pub set_resource_events_once :
    (s : State) (n k : ℕ) (p : Handle) (m : ResourceData) (e f e2 f2 : ℕ)
    → find_key n s.objs ≡ some p
    → s.heap p.data_ptr ≡ some (record { counter = k; members = of_resource m })
    → p.native ≢ 0
    → e ≢ 0
    → (t : State) × ((and_then (set_events n e f s) (λ _. set_events n e2 f2) ≡ ok tt t)
        × ((get_events n t ≡ ok (if m.events == 0 then e else m.events) t)
            × (t.calls ≡ (
                if m.events == 0
                then wl_resource_set_dispatcher p.native (generated f) p.data_ptr ∷ s.calls
                else s.calls))))
set_resource_events_once s n k p m e f e2 f2 here there nz full =
    elim (Bool-cases (m.events == 0)) [
      | inl null ↦
          let m2 : ResourceData = record m { events = e } in
          let t : State = record s {
            heap =
                update s.heap p.data_ptr (some (record { counter = k; members = of_resource m2 }));
            calls = wl_resource_set_dispatcher p.native (generated f) p.data_ptr ∷ s.calls;
          } in
          let there2 : t.heap p.data_ptr ≡ some (record { counter = k; members = of_resource m2 }) =
            rw (==_self p.data_ptr) refl in
          (
            t,
            (
              rw
                  (
                    set_first s n p k m here there e f (ground (arith, null)) nz,
                    set_again t n p k m2 here there2 e2 f2 full,
                  )
                  refl,
              (rw null (get_events_lem t n p k m2 here there2), rw null refl),
            ),
          )
      | inr had ↦
          let nz2 : m.events ≢ 0 = ground (arith, had) in
          (
            s,
            (
              rw (set_again s n p k m here there e f nz2, set_again s n p k m here there e2 f2 nz2)
                  refl,
              (rw had (get_events_lem s n p k m here there), rw had refl),
            ),
          )
    ]
