-- ===== src/Server/Callbacks/Borrowed.antt =====
-- `display_t::get_event_loop`: a handle of the loop that the display manages.
use waylandpp.Prelude.{ℕ, suc, ◌≡◌, ◌≢◌, refl, false, some, ◌∷◌, ==_self, ne_false}
use waylandpp.Prelude.Assoc.{find_key, erase_key}
use waylandpp.Runtime.{ok, and_then, Env}
use waylandpp.Server.Store.{
  Handle, Cell, of_loop, ServerCall, wl_display_get_event_loop, wl_event_loop_get_destroy_listener,
  wl_event_loop_add_destroy_listener, State, update, get_ok, destroy_by,
}
use waylandpp.Server.Store.Release.{lower, release_at_one}
use waylandpp.Server.Store.Shared.{wrap_unknown}
use waylandpp.Server.Store.Wrap.{log}
use waylandpp.Server.Loop
use waylandpp.Server.Callbacks.{get_event_loop}

made_loop :
    (env : Env ServerCall) (s : State) (out l : ℕ) (nz : l ≢ 0)
    → env.pointer s.calls (wl_event_loop_get_destroy_listener l) ≡ 0
    → Loop.construct env out l s
      ≡ ok tt (record {
        objs = (out, record { native = l; data_ptr = s.next }) ∷ s.objs;
        heap =
            update s.heap s.next
              (some (record { counter = 1; members = of_loop (Loop.new_data false) }));
        next = suc s.next;
        calls =
            wl_event_loop_add_destroy_listener l s.next
            ∷ wl_event_loop_get_destroy_listener l
            ∷ s.calls;
      })
unfolding Loop.construct Loop.init log
made_loop env s out l nz unknown =
    wrap_unknown env "event_loop is null." (λ p. of_loop (Loop.new_data false)) Loop.listeners
      wl_event_loop_get_destroy_listener out l nz s unknown

-- The event loop of a display outlives the handles that `get_event_loop` returns: the first such
-- handle makes the data, and its destructor neither destroys the loop nor deletes the data, which the
-- library still knows.
pub borrowed_loop_stays :
    (env : Env ServerCall) (s : State) (n out l : ℕ) (p : Handle)
    → find_key n s.objs ≡ some p
    → p.native ≢ 0
    → env.pointer s.calls (wl_display_get_event_loop p.native) ≡ l
    → l ≢ 0
    → env.pointer
        (wl_display_get_event_loop p.native ∷ s.calls)
        (wl_event_loop_get_destroy_listener l)
      ≡ 0
    → (t : State) × ((and_then (get_event_loop env out n s) (λ _. Loop.destroy out) ≡ ok tt t)
        × ((t.objs ≡ s.objs)
            × ((t.heap s.next
                  ≡ some (record { counter = 0; members = of_loop (Loop.new_data false) }))
                × (t.calls
                    ≡ wl_event_loop_add_destroy_listener l s.next
                      ∷ wl_event_loop_get_destroy_listener l
                      ∷ wl_display_get_event_loop p.native
                      ∷ s.calls))))
unfolding get_event_loop Loop.destroy Loop.fini Loop.destroy_loop destroy_by find_key erase_key
borrowed_loop_stays env s n out l p here nz loop lz unknown =
    let asked : State = record s { calls = wl_display_get_event_loop p.native ∷ s.calls } in
    let q : Handle = record { native = l; data_ptr = s.next } in
    let c : Cell = record { counter = 1; members = of_loop (Loop.new_data false) } in
    let made : State = record {
      objs = (out, q) ∷ s.objs;
      heap = update s.heap s.next (some c);
      next = suc s.next;
      calls =
          wl_event_loop_add_destroy_listener l s.next
          ∷ wl_event_loop_get_destroy_listener l
          ∷ asked.calls;
    } in
    (
      record (lower q c made) { objs = s.objs },
      (
        rw
            (
              get_ok n p s here,
              ne_false p.native nz,
              loop,
              made_loop env asked out l lz unknown,
              get_ok out q made (rw (==_self out) refl),
              release_at_one Loop.destroy_loop made q c (rw (==_self s.next) refl) refl,
              ==_self out,
            )
            refl,
        (refl, (rw (==_self s.next) refl, refl)),
      ),
    )
