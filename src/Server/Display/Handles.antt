-- ===== src/Server/Display/Handles.antt =====
-- The handles of one `wl_display`: `display_t` gives references up and takes them so that the counters
-- stay right.
use waylandpp.Prelude.{
  inr, inl, Bool-cases, false, ne_false, ◌-◌, ℕ, ◌+◌, ◌<◌, ◌≡◌, ◌≢◌, refl, ap, ◌∙◌, Option, none,
  some, List, [], ◌∷◌, ◌++◌, arith, ◌==◌, if◌then◌else◌,
}
use waylandpp.Runtime.{fault, and_then, u32_mod, ok, Env}
use waylandpp.Prelude.Assoc.{find_key, erase_key}
use waylandpp.Server.Store.{
  null_handle, get_ok, load_null, destroy_by, release, Handle, Cell, of_display, DisplayData,
  ServerCall, wl_display_get_destroy_listener, handler, wl_display_destroy_clients,
  wl_display_destroy, State, update, retain, notify_ok,
}
use waylandpp.Server.Store.Inv.{count, Inv, no_refs}
use waylandpp.Server.Store.Counted.{Gives, Makes, Counted}
use waylandpp.Server.Store.Release.{
  release_above_one, release_at_one, lowered, lower, release-Gives, Gives-none_lost, retain-Takes,
}
use waylandpp.Server.Store.Steps.{moved_from}
use waylandpp.Server.Store.Wrap.{IsKnown, wrap-Makes}
use waylandpp.Server.Display.{
  release, destroy_by, destroy, move_construct, new_data, listeners, init, destroy_display, fini,
  construct, Ending,
}

-- The calls when the last handle goes, the last one first
abbrev pub farewell : Handle → DisplayData → List ServerCall → List ServerCall
farewell p m cs =
    (if m.destroy == 0 then [] else handler m.destroy [] ∷ [])
    ++ wl_display_destroy p.native ∷ wl_display_destroy_clients p.native ∷ cs

-- A handle of a display: not one that was moved from. If the display is destroyed now, the library has
-- no client, resource or event loop with data that ends with it.
pub record IsDisplay (ends : List ServerCall → ℕ → List Ending) (p : Handle) (s : State)
    : Type 0 where
  pub has_native : p.native ≢ 0
  pub has_data : p.data_ptr ≢ 0
  pub counter : ℕ
  pub fields : DisplayData
  pub there : s.heap p.data_ptr ≡ some (record { counter = counter; members = of_display fields })
  pub no_clients : ends (wl_display_destroy_clients p.native ∷ s.calls) p.native ≡ []
  pub no_loop : ends (farewell p fields s.calls) p.native ≡ []

pub destroy_display_ok :
    (ends : List ServerCall → ℕ → List Ending) (s : State) (p : Handle) (k : ℕ) (m : DisplayData)
    → p.native ≢ 0
    → ends (wl_display_destroy_clients p.native ∷ s.calls) p.native ≡ []
    → ends (farewell p m s.calls) p.native ≡ []
    → destroy_display ends p (record { counter = k; members = of_display m }) s
      ≡ ok tt (record s { heap = update s.heap p.data_ptr none; calls = farewell p m s.calls })
unfolding destroy_display
destroy_display_ok ends s p k m nz alone quiet =
    rw (ne_false p.native nz, alone, notify_ok m.destroy [] _, quiet) refl

pub fini_lem :
    (ends : List ServerCall → ℕ → List Ending) (lost owed : ℕ → ℕ) (s : State) (p : Handle)
    → Inv lost owed s
    → IsDisplay ends p s
    → (p.data_ptr ≢ 0 → 0 < count (s.heap p.data_ptr))
    → Gives (λ e. lost e + 0) owed p s (fini ends p s)
unfolding fini
fini_lem ends lost owed s p i h pos =
    let c : Cell = record { counter = h.counter; members = of_display h.fields } in
    Gives-none_lost lost owed p s _ (
      release-Gives (destroy_display ends) lost owed s p c i h.has_data h.there
        (rw h.there at (pos h.has_data))
        (λ one. record {
          left = none;
          after = record (lower p c s) {
            heap = update (lower p c s).heap p.data_ptr none;
            calls = farewell p h.fields s.calls;
          };
          done =
              destroy_display_ok ends (lower p c s) p (lowered c).counter h.fields h.has_native
                h.no_clients h.no_loop;
          same_objs = refl;
          same_next = refl;
          heap_at = λ e. ground arith;
          counts_none = refl;
          is_old = λ above. refl;
        }))

pub construct_lem :
    (env : Env ServerCall) (lost : ℕ → ℕ) (s : State) (n p : ℕ)
    → Inv lost no_refs s
    → (p ≢ 0) × IsKnown env wl_display_get_destroy_listener p s
    → Makes lost n s (construct env n p s)
unfolding construct init
construct_lem env lost s n p i may =
    wrap-Makes env lost s n p wl_display_get_destroy_listener "display is null."
      (λ q. of_display new_data) listeners i may.0 may.1

abbrev pub display_handles : Env ServerCall → (List ServerCall → ℕ → List Ending) → Counted
display_handles env ends = record {
  give = fini ends;
  take = retain;
  construct = construct env;
  MayGive = IsDisplay ends;
  MayTake = λ d. d ≢ 0;
  MayConstruct = λ p s. (p ≢ 0) × IsKnown env wl_display_get_destroy_listener p s;
  loses = λ p d. 0;
  give_lem = fini_lem ends;
  take_lem = λ lost owed s d i nz pos room. retain-Takes lost owed s d i nz (pos nz) room;
  construct_lem = construct_lem env;
}

-- The data of the handle and the calls after the destructor
abbrev pub left_by : (counter : ℕ) → DisplayData → Option Cell
left_by counter m =
    if counter == 1 then none else some (record { counter = counter - 1; members = of_display m })

abbrev pub calls_by : (counter : ℕ) → Handle → DisplayData → List ServerCall → List ServerCall
calls_by counter p m cs = if counter == 1 then farewell p m cs else cs

-- Where no client, resource or event loop with data ends with the display: the destructor of the last
-- handle destroys the clients and the display, then runs the program's function for the end of the
-- display, and deletes the data; the destructor of any other handle lowers the counter and makes no
-- call.
pub destroy_last_display :
    (ends : List ServerCall → ℕ → List Ending) (s : State) (n : ℕ) (p : Handle)
    (h : IsDisplay ends p s)
    → find_key n s.objs ≡ some p
    → 0 < h.counter
    → h.counter < u32_mod
    → (t : State) × ((destroy ends n s ≡ ok tt t)
        × ((t.calls ≡ calls_by h.counter p h.fields s.calls)
            × ((d : ℕ) → t.heap d ≡ update s.heap p.data_ptr (left_by h.counter h.fields) d)))
unfolding destroy destroy_by
destroy_last_display ends s n p h here pos small =
    let c : Cell = record { counter = h.counter; members = of_display h.fields } in
    let low : State = lower p c s in
    elim (Bool-cases (h.counter == 1)) [
      | inl one ↦ (
        record low {
          objs = erase_key n s.objs;
          heap = update low.heap p.data_ptr none;
          calls = farewell p h.fields s.calls;
        },
        (
          rw
              (
                get_ok n p s here,
                release_at_one (destroy_display ends) s p c h.there (ground (arith, one)),
                destroy_display_ok ends low p (lowered c).counter h.fields h.has_native h.no_clients
                    h.no_loop,
              )
              refl,
          (rw one refl, λ d. ground (arith, one)),
        ),
      )
      | inr more ↦ (
        record low { objs = erase_key n s.objs },
        (
          rw
              (
                get_ok n p s here,
                release_above_one (destroy_display ends) s p c h.there pos small
                    (ground (arith, more)),
              )
              refl,
          (rw more refl, λ d. ground (arith, more, pos, small)),
        ),
      )
    ]

-- The object that a display was moved from has no data, and its destructor reads the counter there:
-- undefined behaviour.
pub moved_from_display-faults :
    (ends : List ServerCall → ℕ → List Ending) (s : State) (n m : ℕ) (q : Handle)
    → find_key m s.objs ≡ some q
    → (n == m) ≡ false
    → s.heap 0 ≡ none
    → and_then (move_construct n m s) (λ _. destroy ends m) ≡ fault
unfolding move_construct destroy destroy_by fini release
moved_from_display-faults ends s n m q there ne null =
    let (t, (done, (gone, same))) = moved_from n m q s there ne in
    rw (done, get_ok m null_handle t gone, load_null t (ap (λ h. h 0) same ∙ null)) refl
