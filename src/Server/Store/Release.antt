-- ===== src/Server/Store/Release.antt =====
-- `data->counter--` with what follows at 0, and `data->counter++`, from a state with right counters.
use waylandpp.Prelude.{
  ◌∙◌, ℕ, ◌+◌, ◌≤◌, ◌<◌, ◌≡◌, ◌≢◌, refl, true, Option, none, some, arith, ◌==◌, Bool-cases, inl,
  inr, ne_false,
}
use waylandpp.Prelude.Assoc.{hit}
use waylandpp.Runtime.{Outcome, ok, u32_mod, inc32, dec32}
use waylandpp.Server.Store.{
  Handle, Cell, State, Exec, update, load_ok, retain, retain_some, release,
}
use waylandpp.Server.Store.Inv.{count, Inv, some_of_count, lowered-Inv, raised-Inv, Inv-owed}
use waylandpp.Server.Store.Counted.{Gives, Takes}

abbrev pub lowered : Cell → Cell
lowered c = record c { counter = dec32 c.counter }

-- The state when the counter has been lowered
abbrev pub lower : Handle → Cell → State → State
lower p c s = record s { heap = update s.heap p.data_ptr (some (lowered c)) }

-- What is done at 0 leaves the data at `d` as `o`, which counts nothing.
pub record Ends (d : ℕ) (s : State) (o : Outcome State (Unit {0})) : Type 0 where
  pub left : Option Cell
  pub after : State
  pub done : o ≡ ok tt after
  pub same_objs : after.objs ≡ s.objs
  pub same_next : after.next ≡ s.next
  pub heap_at : (e : ℕ) → after.heap e ≡ update s.heap d left e
  pub counts_none : count left ≡ 0
  pub is_old : s.next ≤ d → left ≡ none

eq_true : (a : ℕ) → a ≡ 0 → (a == 0) ≡ true
eq_true a h = ground arith

module _ (last : Handle → Cell → Exec (Unit {0})) (s : State) (p : Handle) (c : Cell)
    (there : s.heap p.data_ptr ≡ some c) where
  pub release_at_one : c.counter ≡ 1 → release last p s ≡ last p (lowered c) (lower p c s)
  unfolding release
  release_at_one one =
      let none_left : dec32 c.counter ≡ 0 = omega (arith, one) in
      rw (load_ok p.data_ptr c s there, eq_true (dec32 c.counter) none_left) refl

  pub release_above_one :
      0 < c.counter → c.counter < u32_mod → c.counter ≢ 1 → release last p s ≡ ok tt (lower p c s)
  unfolding release
  release_above_one pos small more =
      let some_left : dec32 c.counter ≢ 0 = omega (arith, more, pos, small) in
      rw (load_ok p.data_ptr c s there, ne_false (dec32 c.counter) some_left) refl

module _ (last : Handle → Cell → Exec (Unit {0})) (lost owed : ℕ → ℕ) (s : State) (p : Handle)
    (c : Cell) (i : Inv lost owed s) (nz : p.data_ptr ≢ 0) (there : s.heap p.data_ptr ≡ some c)
    (pos : 0 < c.counter) where
  counter_small : c.counter < u32_mod
  counter_small = rw there at (i.small p.data_ptr)

  last_one :
      c.counter ≡ 1
      → Ends p.data_ptr s (last p (lowered c) (lower p c s))
      → Gives lost owed p s (release last p s)
  last_one one e =
      let none_left : dec32 c.counter ≡ 0 = omega (arith, one) in
      let j =
        lowered-Inv lost owed s i p.data_ptr e.left nz (ground (arith, there, one, e.counts_none))
          e.is_old in
      record {
        after = e.after;
        done = release_at_one last s p c there one ∙ e.done;
        same_objs = e.same_objs;
        less = λ d. rw (e.heap_at d) (ground (arith, there, e.counts_none));
        kept = record {
          owned = λ d ne. rw (e.same_objs, e.heap_at d) (j.owned d ne);
          fresh = λ d above. rw (e.heap_at d) (j.fresh d (rw e.same_next at above));
          small = λ d. rw (e.heap_at d) (j.small d);
          null_free = rw (e.heap_at 0) j.null_free;
          next_pos = rw e.same_next j.next_pos;
        };
      }

  more_left : c.counter ≢ 1 → Gives lost owed p s (release last p s)
  more_left more = record {
    after = lower p c s;
    done = release_above_one last s p c there pos counter_small more;
    same_objs = refl;
    less = λ d. ground (arith, there, counter_small, pos);
    kept =
        lowered-Inv lost owed s i p.data_ptr (some (lowered c)) nz
          (ground (arith, there, counter_small, pos))
          (λ above. ground (arith, i.fresh p.data_ptr above, there));
  }

  -- One reference is given up.
  pub release-Gives :
      (c.counter ≡ 1 → Ends p.data_ptr s (last p (lowered c) (lower p c s)))
      → Gives lost owed p s (release last p s)
  release-Gives e = elim (Bool-cases (c.counter == 1)) [
    | inl one ↦ last_one (ground (arith, one)) (e (ground (arith, one)))
    | inr more ↦ more_left (ground (arith, more))
  ]

module _ (lost owed : ℕ → ℕ) (s : State) (d : ℕ) (i : Inv lost (λ e. owed e + hit d e) s) where
  pub retain-Takes :
      d ≢ 0 → 0 < count (s.heap d) → count (s.heap d) + 1 < u32_mod → Takes lost owed s (retain d s)
  unfolding retain
  retain-Takes nz pos room =
      let (c, there) = some_of_count (s.heap d) pos in
      record {
        after = record s { heap = update s.heap d (some (record c { counter = inc32 c.counter })) };
        done = rw (load_ok d c s there) refl;
        same_objs = refl;
        kept = raised-Inv lost owed s d c i there nz (ground (arith, there, room));
      }

  pub retain_some-Takes :
      (d ≢ 0 → 0 < count (s.heap d))
      → count (s.heap d) + 1 < u32_mod
      → Takes lost owed s (retain_some d s)
  unfolding retain_some
  retain_some-Takes pos room = elim (Bool-cases (d == 0)) [
    | inl null ↦ rw null (record {
      after = s;
      done = refl;
      same_objs = refl;
      kept = Inv-owed lost _ s i owed (λ e ne. ground (arith, null, ne));
    })
    | inr full ↦ rw full (retain-Takes (ground (arith, full)) (pos (ground (arith, full))) room)
  ]

-- A class that loses no reference
pub Gives-none_lost :
    (lost owed : ℕ → ℕ) (p : Handle) (s : State) (o : Outcome State (Unit {0}))
    → Gives lost owed p s o
    → Gives (λ e. lost e + 0) owed p s o
Gives-none_lost lost owed p s o g = record {
  after = g.after;
  done = g.done;
  same_objs = g.same_objs;
  less = g.less;
  kept = record {
    owned = λ d nz. omega (arith, g.kept.owned d nz);
    fresh = g.kept.fresh;
    small = g.kept.small;
    null_free = g.kept.null_free;
    next_pos = g.kept.next_pos;
  };
}

-- A class that gives no reference up loses it.
pub loses_one :
    (lost owed : ℕ → ℕ) (p : Handle) (s : State)
    → Inv lost owed s
    → Gives (λ e. lost e + hit p.data_ptr e) owed p s (ok tt s)
loses_one lost owed p s i = record {
  after = s;
  done = refl;
  same_objs = refl;
  less = λ e. omega arith;
  kept = record {
    owned = λ d nz. omega (arith, i.owned d nz);
    fresh = i.fresh;
    small = i.small;
    null_free = i.null_free;
    next_pos = i.next_pos;
  };
}
