-- ===== src/Server/Loop/Handles.antt =====
-- The handles of one `wl_event_loop`: `event_loop_t` gives references up and takes them so that the
-- counters stay right.
use waylandpp.Prelude.{
  ℕ, ◌+◌, ◌<◌, ◌≡◌, ◌≢◌, refl, ◌∙◌, ap, false, none, some, [], ◌∷◌, arith, ◌==◌, if◌then◌else◌,
  Bool-cases, inl, inr, List,
}
use waylandpp.Prelude.Assoc.{find_key}
use waylandpp.Runtime.{fault, and_then, Env}
use waylandpp.Server.Store.{
  Handle, Cell, of_loop, LoopData, ServerCall, wl_event_loop_get_destroy_listener, handler,
  wl_event_loop_destroy, State, update, retain, null_handle, get_ok, load_null, destroy_by, release,
}
use waylandpp.Server.Store.Inv.{count, Inv, no_refs}
use waylandpp.Server.Store.Counted.{Gives, Makes, Counted}
use waylandpp.Server.Store.Release.{
  lowered, lower, Ends, release-Gives, Gives-none_lost, retain-Takes,
}
use waylandpp.Server.Store.Steps.{moved_from}
use waylandpp.Server.Store.Wrap.{IsKnown, wrap-Makes}
use waylandpp.Server.Loop.{
  new_data, listeners, init, destroy_func, destroy_loop, fini, construct, move_construct, destroy,
}

-- A handle of an event loop: not one that was moved from
pub record IsLoop (p : Handle) (s : State) : Type 0 where
  pub has_data : p.data_ptr ≢ 0
  pub counter : ℕ
  pub fields : LoopData
  pub there : s.heap p.data_ptr ≡ some (record { counter = counter; members = of_loop fields })

-- The call of the program's function for the end of the event loop
abbrev told : LoopData → List ServerCall → List ServerCall
told m cs = if m.destroy == 0 then cs else handler m.destroy [] ∷ cs

-- What is left of the data when the last handle goes
destroy_loop-Ends :
    (lost owed : ℕ → ℕ) (s : State) (p : Handle) (k : ℕ) (m : LoopData)
    → Inv lost owed s
    → s.heap p.data_ptr ≡ some (record { counter = k; members = of_loop m })
    → k ≡ 1
    → let c : Cell = record { counter = k; members = of_loop m } in
      Ends p.data_ptr s (destroy_loop p (lowered c) (lower p c s))
unfolding destroy_loop destroy_func
destroy_loop-Ends lost owed s p k m i there one =
    let low : State = lower p (record { counter = k; members = of_loop m }) s in
    elim (Bool-cases m.do_delete) [
      | inl deletes ↦ record {
        left = none;
        after = record s {
          heap = update low.heap p.data_ptr none;
          calls = told m (wl_event_loop_destroy p.native ∷ s.calls);
        };
        done = ground (arith, deletes);
        same_objs = refl;
        same_next = refl;
        heap_at = λ e. ground arith;
        counts_none = refl;
        is_old = λ above. refl;
      }
      | inr stays ↦ record {
        left = some (lowered (record { counter = k; members = of_loop m }));
        after = low;
        done = rw stays refl;
        same_objs = refl;
        same_next = refl;
        heap_at = λ e. refl;
        counts_none = omega (arith, one);
        is_old = λ above. ground (arith, i.fresh p.data_ptr above, there);
      }
    ]

pub fini_lem :
    (lost owed : ℕ → ℕ) (s : State) (p : Handle)
    → Inv lost owed s
    → IsLoop p s
    → (p.data_ptr ≢ 0 → 0 < count (s.heap p.data_ptr))
    → Gives (λ e. lost e + 0) owed p s (fini p s)
unfolding fini
fini_lem lost owed s p i h pos =
    let c : Cell = record { counter = h.counter; members = of_loop h.fields } in
    Gives-none_lost lost owed p s _ (
      release-Gives destroy_loop lost owed s p c i h.has_data h.there
        (rw h.there at (pos h.has_data))
        (destroy_loop-Ends lost owed s p h.counter h.fields i h.there))

pub construct_lem :
    (env : Env ServerCall) (lost : ℕ → ℕ) (s : State) (n p : ℕ)
    → Inv lost no_refs s
    → (p ≢ 0) × IsKnown env wl_event_loop_get_destroy_listener p s
    → Makes lost n s (construct env n p s)
unfolding construct init
construct_lem env lost s n p i may =
    wrap-Makes env lost s n p wl_event_loop_get_destroy_listener "event_loop is null."
      (λ q. of_loop (new_data false)) listeners i may.0 may.1

abbrev pub loop_handles : Env ServerCall → Counted
loop_handles env = record {
  give = fini;
  take = retain;
  construct = construct env;
  MayGive = IsLoop;
  MayTake = λ d. d ≢ 0;
  MayConstruct = λ p s. (p ≢ 0) × IsKnown env wl_event_loop_get_destroy_listener p s;
  loses = λ p d. 0;
  give_lem = fini_lem;
  take_lem = λ lost owed s d i nz pos room. retain-Takes lost owed s d i nz (pos nz) room;
  construct_lem = construct_lem env;
}

-- The object that an event loop was moved from has no data, and its destructor reads the counter
-- there: undefined behaviour.
pub moved_from_loop-faults :
    (s : State) (n m : ℕ) (q : Handle)
    → find_key m s.objs ≡ some q
    → (n == m) ≡ false
    → s.heap 0 ≡ none
    → and_then (move_construct n m s) (λ _. destroy m) ≡ fault
unfolding move_construct destroy destroy_by fini release
moved_from_loop-faults s n m q there ne null =
    let (t, (done, (gone, same))) = moved_from n m q s there ne in
    rw (done, get_ok m null_handle t gone, load_null t (ap (λ h. h 0) same ∙ null)) refl
