-- ===== src/Server/Store/Wrap.antt =====
-- New data and the constructors from native objects, from a state with right counters.
use waylandpp.Prelude.{
  ℕ, suc, ◌+◌, ◌<◌, ◌≡◌, ◌≢◌, refl, some, List, [], ◌∷◌, arith, ◌==◌, Bool-cases, inl, inr, ==_self,
  ne_false,
}
use waylandpp.Prelude.Assoc.{hit, find_key, set_key, find-set_self}
use waylandpp.Runtime.{ok, pure, Env, u32_mod}
use waylandpp.Server.Store.{
  String, Handle, Members, ServerCall, State, Exec, update, get_ok, call_all, init_by, bare,
  wrap_by,
}
use waylandpp.Server.Store.Inv.{
  count, Inv, no_refs, Inv-owed, called-Inv, placed-Inv, allocated-Inv, set-Inv,
}
use waylandpp.Server.Store.Counted.{Makes}
use waylandpp.Server.Store.Release.{retain-Takes}

unfoldable pub log : List ServerCall → List ServerCall → List ServerCall
log [] cs = cs
log (c ∷ more) cs = log more (c ∷ cs)

pub call_all_lem :
    (more : List ServerCall) (s : State)
    → call_all more s ≡ ok tt (record s { calls = log more s.calls })
unfolding call_all log
call_all_lem [] s = refl
call_all_lem (c ∷ more) s = call_all_lem more (record s { calls = c ∷ s.calls })

module _ (lost : ℕ → ℕ) (s : State) (i : Inv lost no_refs s) (n : ℕ) (p : Handle)
    (here : find_key n s.objs ≡ some p) (null : p.data_ptr ≡ 0) where
  -- A handle without data gets new data.
  pub init-Makes :
      (members : Handle → Members) (known : Handle → List ServerCall)
      → Makes lost n s (init_by members known n s)
  unfolding init_by
  init-Makes members known =
      let q : Handle = record p { data_ptr = s.next } in
      let old : State = record s {
        heap = update s.heap s.next (some (record { counter = 1; members = members p }));
        next = suc s.next;
      } in
      let new : State = record old { objs = set_key n q s.objs } in
      let j =
        set-Inv (λ d. lost d + hit s.next d) no_refs old n p q here
          (Inv-owed _ no_refs old (allocated-Inv lost no_refs s i (members p)) _
            (λ d nz. ground (arith, null, nz))) in
      record {
        made = q;
        after = record new { calls = log (known q) s.calls };
        done = rw (get_ok n p s here) (call_all_lem (known q) new);
        there = find-set_self n q p s.objs here;
        kept = record {
          owned = λ d nz. omega (arith, j.owned d nz);
          fresh = j.fresh;
          small = j.small;
          null_free = j.null_free;
          next_pos = j.next_pos;
        };
      }

-- The data that the library knows, if it knows any, is there, and has room for a reference more.
abbrev pub IsKnown : Env ServerCall → (ℕ → ServerCall) → ℕ → State → Type 0
IsKnown env find p s =
    let d : ℕ = env.pointer s.calls (find p) in
    d ≢ 0 → (0 < count (s.heap d)) × (count (s.heap d) + 1 < u32_mod)

module _ (env : Env ServerCall) (lost : ℕ → ℕ) (s : State) (n p : ℕ) (find : ℕ → ServerCall) where
  abbrev pub asked : State
  asked = record s { objs = (n, bare p) ∷ s.objs; calls = find p ∷ s.calls }

  pub asked-Inv : Inv lost no_refs s → Inv lost no_refs asked
  asked-Inv i =
      Inv-owed lost _ asked
        (called-Inv lost _ _ (placed-Inv lost no_refs s i n (bare p)) (find p ∷ s.calls)) no_refs
        (λ d nz. ground (arith, nz))

  pub asked_there : find_key n asked.objs ≡ some (bare p)
  unfolding find_key
  asked_there = rw (==_self n) refl

  -- A constructor whose `init` does its part when the library knows no data
  pub wrap_by-Makes :
      (message : String) (init : ℕ → Exec (Unit {0}))
      → Inv lost no_refs s
      → p ≢ 0
      → IsKnown env find p s
      → Makes lost n asked (init n asked)
      → Makes lost n s (wrap_by env message find init n p s)
  unfolding wrap_by set_key find_key
  wrap_by-Makes message init i nz sound m = elim (Bool-cases (env.pointer s.calls (find p) == 0)) [
    | inl unknown ↦ record {
      made = m.made;
      after = m.after;
      done = rw (ne_false p nz, unknown) m.done;
      there = m.there;
      kept = m.kept;
    }
    | inr one ↦
        let d : ℕ = env.pointer s.calls (find p) in
        let dz : d ≢ 0 = ground (arith, one) in
        let q : Handle = record { native = p; data_ptr = d } in
        let new : State = record asked { objs = (n, q) ∷ s.objs } in
        let r =
          retain-Takes lost no_refs new d
            (called-Inv lost _ _ (placed-Inv lost no_refs s i n q) (find p ∷ s.calls)) dz
            (sound dz).0 (sound dz).1 in
        record {
          made = q;
          after = r.after;
          done = rw (ne_false p nz, one, ==_self n) r.done;
          there = rw r.same_objs (rw (==_self n) refl);
          kept = r.kept;
        }
  ]

  pub wrap-Makes :
      (message : String) (members : Handle → Members) (known : Handle → List ServerCall)
      → Inv lost no_refs s
      → p ≢ 0
      → IsKnown env find p s
      → Makes lost n s (wrap_by env message find (init_by members known) n p s)
  wrap-Makes message members known i nz sound =
      wrap_by-Makes message (init_by members known) i nz sound
        (init-Makes lost asked (asked-Inv i) n (bare p) asked_there refl members known)

  -- A class whose constructor leaves a handle without data when the library knows none
  pub wrap_bare-Makes :
      (message : String)
      → Inv lost no_refs s
      → p ≢ 0
      → IsKnown env find p s
      → Makes lost n s (wrap_by env message find (λ _. pure tt) n p s)
  wrap_bare-Makes message i nz sound =
      wrap_by-Makes message (λ _. pure tt) i nz sound
        (record {
          made = bare p;
          after = asked;
          done = refl;
          there = asked_there;
          kept = asked-Inv i;
        })
