-- ===== src/Server/Global/Handles.antt =====
-- The handles of one `wl_global`: `global_base_t` gives references up and takes them so that the
-- counters stay right, also when there is no data.
use waylandpp.Prelude.{
  ℕ, suc, ◌+◌, ◌<◌, ◌≡◌, ◌≢◌, refl, true, false, none, some, List, ◌∷◌, arith, ◌==◌, if◌then◌else◌,
  Bool-cases, inl, inr, ==_self, ne_false,
}
use waylandpp.Prelude.Assoc.{find_key, erase_key}
use waylandpp.Runtime.{ok, pure, and_then, Env}
use waylandpp.Server.Store.{
  get_ok, load_ok, destroy_by, retain_some, Handle, Cell, of_global, GlobalData, ServerCall,
  wl_global_create, wl_global_get_user_data, wl_global_destroy, wl_global_set_user_data,
  wl_global_remove, State, update,
}
use waylandpp.Server.Store.Inv.{count, Inv, no_refs, Inv-owed}
use waylandpp.Server.Store.Counted.{Gives, Makes, Counted}
use waylandpp.Server.Store.Release.{
  lowered, lower, release_at_one, release-Gives, Gives-none_lost, retain_some-Takes,
}
use waylandpp.Server.Store.Wrap.{IsKnown, wrap_bare-Makes}
use waylandpp.Server.Global.{
  construct_base, new_data, construct_new, destroy_global, fini, construct, destroy, is_removable,
  modify, remove,
}

-- A handle of a global that has data
pub record IsGlobal (p : Handle) (s : State) : Type 0 where
  pub has_native : p.native ≢ 0
  pub counter : ℕ
  pub fields : GlobalData
  pub there : s.heap p.data_ptr ≡ some (record { counter = counter; members = of_global fields })

-- The calls when the last handle goes, the last one first
abbrev pub farewell : Handle → List ServerCall → List ServerCall
farewell p cs = wl_global_destroy p.native ∷ wl_global_set_user_data p.native 0 ∷ cs

destroy_global_ok :
    (s : State) (p : Handle) (c : Cell)
    → p.native ≢ 0
    → destroy_global p c s
      ≡ ok tt (record s { heap = update s.heap p.data_ptr none; calls = farewell p s.calls })
unfolding destroy_global
destroy_global_ok s p c nz = rw (ne_false p.native nz) refl

Gives-nothing :
    (lost owed : ℕ → ℕ) (s : State) (p : Handle)
    → Inv lost owed s
    → p.data_ptr ≡ 0
    → Gives (λ e. lost e + 0) owed p s (pure tt s)
Gives-nothing lost owed s p i null = Gives-none_lost lost owed p s _ (record {
  after = s;
  done = refl;
  same_objs = refl;
  less = λ e. omega arith;
  kept = Inv-owed lost owed s i _ (λ e nz. ground (arith, null, nz));
})

pub fini_lem :
    (lost owed : ℕ → ℕ) (s : State) (p : Handle)
    → Inv lost owed s
    → (p.data_ptr ≢ 0 → IsGlobal p s)
    → (p.data_ptr ≢ 0 → 0 < count (s.heap p.data_ptr))
    → Gives (λ e. lost e + 0) owed p s (fini p s)
unfolding fini
fini_lem lost owed s p i may pos = elim (Bool-cases (p.data_ptr == 0)) [
  | inl null ↦ rw null (Gives-nothing lost owed s p i (ground (arith, null)))
  | inr full ↦
      let nz : p.data_ptr ≢ 0 = ground (arith, full) in
      let h = may nz in
      let c : Cell = record { counter = h.counter; members = of_global h.fields } in
      rw full (
        Gives-none_lost lost owed p s _ (
          release-Gives destroy_global lost owed s p c i nz h.there (rw h.there at (pos nz)) (λ one.
            record {
              left = none;
              after = record (lower p c s) {
                heap = update (lower p c s).heap p.data_ptr none;
                calls = farewell p s.calls;
              };
              done = destroy_global_ok (lower p c s) p (lowered c) h.has_native;
              same_objs = refl;
              same_next = refl;
              heap_at = λ e. ground arith;
              counts_none = refl;
              is_old = λ above. refl;
            })))
]

pub construct_lem :
    (env : Env ServerCall) (lost : ℕ → ℕ) (s : State) (n p : ℕ)
    → Inv lost no_refs s
    → (p ≢ 0) × IsKnown env wl_global_get_user_data p s
    → Makes lost n s (construct env n p s)
unfolding construct
construct_lem env lost s n p i may =
    wrap_bare-Makes env lost s n p wl_global_get_user_data "global is null." i may.0 may.1

abbrev pub global_handles : Env ServerCall → Counted
global_handles env = record {
  give = fini;
  take = retain_some;
  construct = construct env;
  MayGive = λ p s. p.data_ptr ≢ 0 → IsGlobal p s;
  MayTake = λ d. Unit {0};
  MayConstruct = λ p s. (p ≢ 0) × IsKnown env wl_global_get_user_data p s;
  loses = λ p d. 0;
  give_lem = fini_lem;
  take_lem = λ lost owed s d i may pos room. retain_some-Takes lost owed s d i pos room;
  construct_lem = construct_lem env;
}

-- The state that `global_t` makes, with its handle in `n`
abbrev made_state : (c : Cell) (n g : ℕ) → ServerCall → State → State
made_state c n g create s = record {
  objs = (n, record { native = g; data_ptr = s.next }) ∷ s.objs;
  heap = update (update s.heap s.next (some c)) s.next (some c);
  next = suc s.next;
  calls = create ∷ s.calls;
}

abbrev fresh_cell : Cell
fresh_cell = record { counter = 1; members = of_global new_data }

construct_new_lem :
    (env : Env ServerCall) (s : State) (n display interface func version : ℕ) (d : Handle)
    → find_key display s.objs ≡ some d
    → d.native ≢ 0
    → let create : ServerCall = wl_global_create d.native interface version s.next func in
      construct_new interface func env n display version s
      ≡ ok tt (made_state fresh_cell n (env.pointer s.calls create) create s)
unfolding construct_new construct_base
construct_new_lem env s n display interface func version d here nz =
    let old : State = record s {
      heap = update s.heap s.next (some fresh_cell);
      next = suc s.next;
    } in
    let new : State = record old { heap = update old.heap s.next (some fresh_cell) } in
    rw
      (
        load_ok s.next fresh_cell old (rw (==_self s.next) refl),
        get_ok display d new here,
        ne_false d.native nz,
      )
      refl

-- A global that the program made and of which it kept one handle is gone with that handle: the
-- library has been told to forget the data and to destroy the global, and the data is deleted.
pub global_lives_once :
    (env : Env ServerCall) (s : State) (n display interface func version g : ℕ) (d : Handle)
    → find_key display s.objs ≡ some d
    → d.native ≢ 0
    → s.next ≢ 0
    → env.pointer s.calls (wl_global_create d.native interface version s.next func) ≡ g
    → g ≢ 0
    → (t : State) × ((and_then
            (construct_new interface func env n display version s)
            (λ _. destroy n)
          ≡ ok tt t)
        × ((t.heap s.next ≡ none)
            × (t.calls
                ≡ wl_global_destroy g
                  ∷ wl_global_set_user_data g 0
                  ∷ wl_global_create d.native interface version s.next func
                  ∷ s.calls)))
unfolding destroy destroy_by fini find_key
global_lives_once env s n display interface func version g d here nz pos made gz =
    let create : ServerCall = wl_global_create d.native interface version s.next func in
    let p : Handle = record { native = g; data_ptr = s.next } in
    let new : State = made_state fresh_cell n g create s in
    (
      record new {
        objs = erase_key n new.objs;
        heap = update (lower p fresh_cell new).heap s.next none;
        calls = farewell p new.calls;
      },
      (
        rw
            (
              construct_new_lem env s n display interface func version d here nz,
              made,
              get_ok n p new (rw (==_self n) refl),
              ne_false s.next pos,
              release_at_one destroy_global new p fresh_cell (rw (==_self s.next) refl) refl,
              destroy_global_ok (lower p fresh_cell new) p (lowered fresh_cell) gz,
            )
            refl,
        (rw (==_self s.next) refl, refl),
      ),
    )

module _ (s : State) (n : ℕ) (p : Handle) (k : ℕ) (m : GlobalData)
    (here : find_key n s.objs ≡ some p) (nz : p.data_ptr ≢ 0)
    (there : s.heap p.data_ptr ≡ some (record { counter = k; members = of_global m })) where
  remove_again : m.removed ≡ true → remove n s ≡ ok tt s
  unfolding remove is_removable
  remove_again e =
      rw (get_ok n p s here, ne_false p.data_ptr nz, load_ok p.data_ptr _ s there, e) refl

  abbrev removed_data : Cell
  removed_data = record { counter = k; members = of_global (record m { removed = true }) }

  remove_first :
      m.removed ≡ false
      → remove n s
        ≡ ok tt (record s {
          heap = update s.heap p.data_ptr (some removed_data);
          calls = wl_global_remove p.native ∷ s.calls;
        })
  unfolding remove is_removable modify
  remove_first e =
      let told : State = record s { calls = wl_global_remove p.native ∷ s.calls } in
      rw
        (
          get_ok n p s here,
          ne_false p.data_ptr nz,
          load_ok p.data_ptr _ s there,
          e,
          load_ok p.data_ptr _ told there,
        )
        refl

-- `remove()` broadcasts the removal of a global once, however often it is called.
pub removes_once :
    (s : State) (n : ℕ) (p : Handle) (h : IsGlobal p s)
    → find_key n s.objs ≡ some p
    → p.data_ptr ≢ 0
    → (t : State) × ((remove n s ≡ ok tt t)
        × ((remove n t ≡ ok tt t)
            × (t.calls
                ≡ (if h.fields.removed then s.calls else wl_global_remove p.native ∷ s.calls))))
removes_once s n p h here nz = elim (Bool-cases h.fields.removed) [
  | inl done ↦
      let again = remove_again s n p h.counter h.fields here nz h.there done in
      (s, (again, (again, rw done refl)))
  | inr not_yet ↦ (
    _,
    (
      remove_first s n p h.counter h.fields here nz h.there not_yet,
      (
        remove_again _ n p h.counter (record h.fields { removed = true }) here nz
            (rw (==_self p.data_ptr) refl) refl,
        rw not_yet refl,
      ),
    ),
  )
]
