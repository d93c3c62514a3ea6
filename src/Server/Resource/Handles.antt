-- ===== src/Server/Resource/Handles.antt =====
-- The handles of one `wl_resource`: they share the data that the first one makes, and an assignment
-- from a handle without data is not a copy.
use waylandpp.Prelude.{
  ℕ, ◌≡◌, ◌≢◌, refl, false, none, some, [], ◌∷◌, ◌==◌, ==_self, if◌then◌else◌, Bool-cases, inl, inr,
  ne_false,
}
use waylandpp.Prelude.Assoc.{set-set, hit, find_key, set_key, find-set_self}
use waylandpp.Runtime.{ok, fault, and_then, pure, Env, ◌>>◌}
use waylandpp.Server.Store.{
  copy_assign_by, Handle, of_resource, ResourceData, ServerCall, wl_resource_get_user_data, State,
  load_gone, load_ok, get_ok, retain_some, update, notify, handler, store,
}
use waylandpp.Server.Store.Inv.{Inv, no_refs}
use waylandpp.Server.Store.Counted.{Makes, Counted}
use waylandpp.Server.Store.Release.{loses_one, retain_some-Takes}
use waylandpp.Server.Store.Wrap.{IsKnown, wrap-Makes, log}
use waylandpp.Server.Store.Shared.{Shared, wrap_twice_lem}
use waylandpp.Server.Resource.{
  new_data, listeners, init, construct, copy_assign, destroy_func, on_destroy, modify,
}

pub construct_lem :
    (env : Env ServerCall) (lost : ℕ → ℕ) (s : State) (n p : ℕ)
    → Inv lost no_refs s
    → (p ≢ 0) × IsKnown env wl_resource_get_user_data p s
    → Makes lost n s (construct env n p s)
unfolding construct init
construct_lem env lost s n p i may =
    wrap-Makes env lost s n p wl_resource_get_user_data "resource is null."
      (λ q. of_resource new_data) listeners i may.0 may.1

-- Handles that are copied from a handle with data: `assign_from_full` shows that `operator=` is then what
-- it is in the other classes.
abbrev pub resource_handles : Env ServerCall → Counted
resource_handles env = record {
  give = λ p. pure tt;
  take = retain_some;
  construct = construct env;
  MayGive = λ p s. Unit {0};
  MayTake = λ d. d ≢ 0;
  MayConstruct = λ p s. (p ≢ 0) × IsKnown env wl_resource_get_user_data p s;
  loses = λ p d. hit p.data_ptr d;
  give_lem = λ lost owed s p i may pos. loses_one lost owed p s i;
  take_lem = λ lost owed s d i nz pos room. retain_some-Takes lost owed s d i pos room;
  construct_lem = construct_lem env;
}

-- Two `resource_t` made from the same `wl_resource`, the first of which the library did not know, share
-- one data, which is made known to the library once, if the library returns what it was given.
pub resource_data-Shared :
    (env : Env ServerCall) (s : State) (a b p : ℕ)
    → p ≢ 0
    → s.next ≢ 0
    → (b == a) ≡ false
    → env.pointer s.calls (wl_resource_get_user_data p) ≡ 0
    → env.pointer
        (log
          (listeners (record { native = p; data_ptr = s.next }))
          (wl_resource_get_user_data p ∷ s.calls))
        (wl_resource_get_user_data p)
      ≡ s.next
    → Shared
        (λ q. of_resource new_data)
        listeners
        wl_resource_get_user_data
        a
        b
        p
        s
        (and_then (construct env a p s) (λ _. construct env b p))
unfolding construct init
resource_data-Shared env s a b p nz pos ne unknown known =
    wrap_twice_lem env s a b p (λ q. of_resource new_data) listeners wl_resource_get_user_data
      "resource is null." nz pos ne unknown known

module _ (s : State) (n m : ℕ) (p q : Handle) (here : find_key n s.objs ≡ some p)
    (there : find_key m s.objs ≡ some q) (ne : (n == m) ≡ false) where
  -- Assignment from a resource without data (`resource_t()`, the argument of an event for a null object)
  -- takes its object over and keeps the data of the old one.
  pub assign_keeps_data :
      q.data_ptr ≡ 0
      → (t : State) × ((copy_assign n m s ≡ ok tt t)
          × ((find_key n t.objs ≡ some (record { native = q.native; data_ptr = p.data_ptr }))
              × (t.heap ≡ s.heap)))
  unfolding copy_assign
  assign_keeps_data null = (
    record s { objs = set_key n (record p { native = q.native }) s.objs },
    (
      rw (ne, get_ok n p s here, get_ok m q s there, null) refl,
      (find-set_self n _ p s.objs here, refl),
    ),
  )

  -- Assignment from a resource with data is what it is in the other classes.
  pub assign_from_full :
      q.data_ptr ≢ 0 → copy_assign n m s ≡ copy_assign_by (λ r. pure tt) retain_some n m s
  unfolding copy_assign copy_assign_by retain_some
  assign_from_full nz =
      rw
        (
          ne,
          get_ok n p s here,
          get_ok m q s there,
          ne_false q.data_ptr nz,
          set-set n q (record p { native = q.native }) s.objs,
        )
        refl

told :
    (s : State) (f d : ℕ)
    → (notify f [] >> store d none) s
      ≡ ok tt (record s {
        heap = update s.heap d none;
        calls = if f == 0 then s.calls else handler f [] ∷ s.calls;
      })
told s f d = elim (Bool-cases (f == 0)) [ inl e ↦ rw e refl | inr e ↦ rw e refl ]

-- When the library destroys a resource, the program's function for it runs and the data is deleted;
-- to set a function with a handle that is left is undefined behaviour.
pub destroyed_resource-faults :
    (s : State) (n func : ℕ) (p : Handle) (k : ℕ) (m : ResourceData)
    → find_key n s.objs ≡ some p
    → s.heap p.data_ptr ≡ some (record { counter = k; members = of_resource m })
    → (t : State) × ((destroy_func p.data_ptr s ≡ ok tt t)
        × ((t.calls ≡ (if m.destroy == 0 then s.calls else handler m.destroy [] ∷ s.calls))
            × (on_destroy n func t ≡ fault)))
unfolding destroy_func on_destroy modify
destroyed_resource-faults s n func p k m here there =
    let gone : State = record s {
      heap = update s.heap p.data_ptr none;
      calls = if m.destroy == 0 then s.calls else handler m.destroy [] ∷ s.calls;
    } in
    (
      gone,
      (
        rw (load_ok p.data_ptr _ s there) (told s m.destroy p.data_ptr),
        (
          refl,
          rw (get_ok n p gone here, load_gone p.data_ptr gone (rw (==_self p.data_ptr) refl)) refl,
        ),
      ),
    )
