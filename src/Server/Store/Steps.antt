-- ===== src/Server/Store/Steps.antt =====
-- The methods that all classes of handles have, from a state with right counters.
use waylandpp.Prelude.{ℕ, ◌+◌, ◌<◌, ◌≡◌, ◌≢◌, refl, ap, ◌∙◌, false, some, ◌∷◌, arith, ◌==◌, ==_self}
use waylandpp.Prelude.Assoc.{
  find_key, set_key, erase_key, tally-set, find-set_self, find-set_ne, find-erase_ne,
}
use waylandpp.Runtime.{Outcome, ok, u32_mod}
use waylandpp.Server.Store.{
  Handle, State, null_handle, get_ok, copy_construct_by, swap, move_construct_by, copy_assign_by,
  destroy_by,
}
use waylandpp.Server.Store.Inv.{
  count, Inv, no_refs, live, Inv-owed, placed-Inv, set-Inv, erased-Inv,
}
use waylandpp.Server.Store.Counted.{Counted}

-- A method that returns, in a state with right counters
pub record Keeps (lost : ℕ → ℕ) (o : Outcome State (Unit {0})) : Type 0 where
  pub after : State
  pub done : o ≡ ok tt after
  pub kept : Inv lost no_refs after

pub swap_ok :
    (l m : ℕ) (p q : Handle) (s : State)
    → find_key l s.objs ≡ some p
    → find_key m s.objs ≡ some q
    → swap l m s ≡ ok tt (record s { objs = set_key m p (set_key l q s.objs) })
unfolding swap
swap_ok l m p q s here there = rw (get_ok l p s here, get_ok m q s there) refl

-- A move constructor leaves the null handle in the object that was moved from.
pub moved_from :
    (n m : ℕ) (q : Handle) (s : State)
    → find_key m s.objs ≡ some q
    → (n == m) ≡ false
    → (t : State) × ((move_construct_by n m s ≡ ok tt t)
        × ((find_key m t.objs ≡ some null_handle) × (t.heap ≡ s.heap)))
unfolding move_construct_by find_key
moved_from n m q s there ne =
    let placed : State = record s { objs = (n, null_handle) ∷ s.objs } in
    let there' : find_key m placed.objs ≡ some q = rw ne there in
    (
      _,
      (
        swap_ok n m null_handle q placed (rw (==_self n) refl) there',
        (find-set_self m null_handle q _ (find-set_ne n m q placed.objs ne ∙ there'), refl),
      ),
    )

module _ (c : Counted) (lost : ℕ → ℕ) (s : State) (i : Inv lost no_refs s) where
  live_data :
      (l : ℕ) (p : Handle)
      → find_key l s.objs ≡ some p
      → p.data_ptr ≢ 0
      → 0 < count (s.heap p.data_ptr)
  live_data l p here nz = live lost no_refs s i l p here nz refl

  -- The copy constructor
  pub copy_construct-Keeps :
      (n m : ℕ) (q : Handle)
      → find_key m s.objs ≡ some q
      → c.MayTake q.data_ptr
      → count (s.heap q.data_ptr) + 1 < u32_mod
      → Keeps lost (copy_construct_by c.take n m s)
  unfolding copy_construct_by
  copy_construct-Keeps n m q there may room =
      let placed : State = record s { objs = (n, q) ∷ s.objs } in
      let r =
        c.take_lem lost no_refs placed q.data_ptr (placed-Inv lost no_refs s i n q) may
          (live_data m q there) room in
      record { after = r.after; done = rw (get_ok m q s there) (r.done); kept = r.kept }

  -- The destructor
  pub destroy-Keeps :
      (l : ℕ) (p : Handle)
      → find_key l s.objs ≡ some p
      → c.MayGive p s
      → Keeps (λ d. lost d + c.loses p d) (destroy_by c.give l s)
  unfolding destroy_by
  destroy-Keeps l p here may =
      let g = c.give_lem lost no_refs s p i may (live_data l p here) in
      record {
        after = record g.after { objs = erase_key l g.after.objs };
        done = rw (get_ok l p s here, g.done) refl;
        kept = erased-Inv _ no_refs g.after l p (ap (find_key l) g.same_objs ∙ here) g.kept;
      }

  -- The swap of two handles, which the move assignment is
  pub swap-Keeps :
      (l m : ℕ) (p q : Handle)
      → find_key l s.objs ≡ some p
      → find_key m s.objs ≡ some q
      → (l == m) ≡ false
      → Keeps lost (swap l m s)
  unfolding swap
  swap-Keeps l m p q here there ne =
      let first : State = record s { objs = set_key l q s.objs } in
      let second : State = record s { objs = set_key m p (set_key l q s.objs) } in
      let there' : find_key m first.objs ≡ some q = find-set_ne l m q s.objs ne ∙ there in
      record {
        after = second;
        done = rw (get_ok l p s here, get_ok m q s there) refl;
        kept = record {
          owned = λ d nz. omega (
            arith,
            i.owned d nz,
            tally-set l (λ r. r.data_ptr) d q p s.objs here,
            tally-set m (λ r. r.data_ptr) d p q first.objs there',
          );
          fresh = i.fresh;
          small = i.small;
          null_free = i.null_free;
          next_pos = i.next_pos;
        };
      }

  -- The copy assignment to another handle
  pub copy_assign-Keeps :
      (l m : ℕ) (p q : Handle)
      → find_key l s.objs ≡ some p
      → find_key m s.objs ≡ some q
      → (l == m) ≡ false
      → c.MayGive p s
      → c.MayTake q.data_ptr
      → count (s.heap q.data_ptr) + 1 < u32_mod
      → Keeps (λ d. lost d + c.loses p d) (copy_assign_by c.give c.take l m s)
  unfolding copy_assign_by
  copy_assign-Keeps l m p q here there ne give take room =
      let g = c.give_lem lost no_refs s p i give (live_data l p here) in
      let u : State = g.after in
      let here' : find_key l u.objs ≡ some p = ap (find_key l) g.same_objs ∙ here in
      let there' : find_key m u.objs ≡ some q = ap (find_key m) g.same_objs ∙ there in
      let rest : State = record u { objs = erase_key l u.objs } in
      let alive : q.data_ptr ≢ 0 → 0 < count (u.heap q.data_ptr) = λ nz.
        live _ no_refs rest (erased-Inv _ no_refs u l p here' g.kept) m q
          (find-erase_ne l m u.objs ne ∙ there') nz refl in
      let v : State = record u { objs = set_key l q u.objs } in
      let r =
        c.take_lem _ no_refs v q.data_ptr (set-Inv _ no_refs u l p q here' g.kept) take alive
          (omega (arith, room, g.less q.data_ptr)) in
      record {
        after = r.after;
        done = rw (ne, get_ok l p s here, g.done, get_ok m q u there') r.done;
        kept = r.kept;
      }

-- The move constructor
pub move_construct-Keeps :
    (c : Counted) (lost : ℕ → ℕ) (s : State) (n m : ℕ) (q : Handle)
    → Inv lost no_refs s
    → find_key m s.objs ≡ some q
    → (n == m) ≡ false
    → Keeps lost (move_construct_by n m s)
unfolding move_construct_by find_key
move_construct-Keeps c lost s n m q i there ne =
    let placed : State = record s { objs = (n, null_handle) ∷ s.objs } in
    let j =
      Inv-owed lost _ placed (placed-Inv lost no_refs s i n null_handle) no_refs
        (λ d nz. ground (arith, nz)) in
    swap-Keeps c lost placed j n m null_handle q (rw (==_self n) refl) (rw ne there) ne
