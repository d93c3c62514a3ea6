-- ===== src/Server/Callbacks/Orphans.antt =====
-- The handles of an event loop that are left when its display is destroyed.
use waylandpp.Prelude.{
  ℕ, ◌≡◌, ◌≢◌, refl, false, none, some, List, [], ◌∷◌, ◌++◌, ◌==◌, ==_self, if◌then◌else◌, ne_false,
}
use waylandpp.Prelude.Assoc.{find_key, erase_key, find-erase_ne}
use waylandpp.Runtime.{ok, fault}
use waylandpp.Server.Store.{
  Handle, Cell, DisplayData, LoopData, of_display, of_loop, ServerCall, wl_display_destroy_clients,
  handler, State, update, get_ok, load_ok, load_gone, notify_ok, release, destroy_by,
}
use waylandpp.Server.Store.Release.{lower, lowered, release_at_one}
use waylandpp.Server.Display
use waylandpp.Server.Display.{Ending, loop_ends}
use waylandpp.Server.Display.Handles.{farewell}
use waylandpp.Server.Loop

module _ (ends : List ServerCall → ℕ → List Ending) (s : State) (n m : ℕ) (p q : Handle)
    (fields : DisplayData) (k : ℕ) (members : LoopData) (has_native : p.native ≢ 0)
    (there : s.heap p.data_ptr ≡ some (record { counter = 1; members = of_display fields }))
    (loop_there : s.heap q.data_ptr ≡ some (record { counter = k; members = of_loop members }))
    (apart : (p.data_ptr == q.data_ptr) ≡ false)
    (no_clients : ends (wl_display_destroy_clients p.native ∷ s.calls) p.native ≡ [])
    (loop_too : ends (farewell p fields s.calls) p.native ≡ loop_ends q.data_ptr ∷ []) where
  abbrev cell : Cell
  cell = record { counter = 1; members = of_display fields }

  abbrev pub loop_calls : List ServerCall
  loop_calls =
      (if members.destroy == 0 then [] else handler members.destroy [] ∷ [])
      ++ farewell p fields s.calls

  -- With the display its loop ends, and the data of both goes.
  abbrev ended : State
  ended = record s {
    heap =
        update (update (update s.heap p.data_ptr (some (lowered cell))) q.data_ptr none) p.data_ptr
          none;
    calls = loop_calls;
  }

  ended_ok : Display.destroy_display ends p (lowered cell) (lower p cell s) ≡ ok tt ended
  unfolding Display.destroy_display Display.destroy_func Display.end_all Display.end_one
      Loop.destroy_func
  ended_ok =
      let told : State = record (lower p cell s) { calls = farewell p fields s.calls } in
      rw
        (
          ne_false p.native has_native,
          no_clients,
          notify_ok fields.destroy [] _,
          loop_too,
          load_ok q.data_ptr (record { counter = k; members = of_loop members }) told
              (rw apart loop_there),
          notify_ok members.destroy [] _,
        )
        refl

  -- When the last handle of a display is destroyed that has no client with data, but an event loop with
  -- data: the destructor returns, after it has destroyed the clients and the display and run the
  -- program's functions for the end of the display and then of the loop; and the destructor of a handle
  -- of the loop that is left reads the counter in data that was deleted, which is undefined behaviour.
  pub loop_after_display-faults :
      find_key n s.objs ≡ some p
      → find_key m s.objs ≡ some q
      → (n == m) ≡ false
      → (t : State) × ((Display.destroy ends n s ≡ ok tt t)
          × ((t.calls ≡ loop_calls) × (Loop.destroy m t ≡ fault)))
  unfolding Display.destroy Display.fini Loop.destroy Loop.fini destroy_by release
  loop_after_display-faults here here_too ne =
      let t : State = record ended { objs = erase_key n s.objs } in
      (
        t,
        (
          rw
              (
                get_ok n p s here,
                release_at_one (Display.destroy_display ends) s p cell there refl,
                ended_ok,
              )
              refl,
          (
            refl,
            rw
                (
                  get_ok m q t (rw (find-erase_ne n m s.objs ne) here_too),
                  load_gone q.data_ptr t (rw (apart, ==_self q.data_ptr) refl),
                )
                refl,
          ),
        ),
      )
