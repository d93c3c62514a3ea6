-- ===== src/Util/Shared/Performed.antt =====
-- Each action returns, keeps the counts right, and loses no native object.
use waylandpp.Prelude.{
  ℕ, ◌≡◌, refl, ◌∙◌, true, false, some, ◌∷◌, ◌==◌, Bool-cases, inl, inr, ==_self,
}
use waylandpp.Prelude.Assoc.{find_key}
use waylandpp.Runtime.{Outcome}
use waylandpp.Util.Shared.{
  Wrapper, empty, State, copy_construct, move_construct, cursor_copy_construct, cursor_assign,
  cursor_move_assign,
}
use waylandpp.Util.Shared.Counts.{Owned, get_ok}
use waylandpp.Util.Shared.Actions.{
  Action, wraps, refers, copies, moves, assigns, move_assigns, cursor_copies, cursor_assigns,
  cursor_move_assigns, destroys, wrapped_by, none_wrapped, perform, Allowed, Keeps,
}
use waylandpp.Util.Shared.Operations.{
  live, emplaced, assign_lem, construct_lem, construct_from_lem, move_assign_lem, copy_assign_lem,
  cursor_move_lem, destroy_lem, unchanged,
}

module _ {C : Type 0} (s : State C) (i : Owned s) where
  with_empty : ℕ → State C
  with_empty l = record s { objs = (l, empty) ∷ s.objs }

  placed : (l : ℕ) → find_key l (with_empty l).objs ≡ some empty
  unfolding with_empty find_key
  placed l = rw (==_self l) refl

  others : (l m : ℕ) → (l == m) ≡ false → find_key m (with_empty l).objs ≡ find_key m s.objs
  unfolding with_empty find_key
  others l m ne = rw ne refl

  from_empty :
      (l : ℕ) (o : Outcome (State C) (Unit {0}))
      → Keeps none_wrapped (with_empty l) o
      → Keeps none_wrapped s o
  unfolding with_empty
  from_empty l o k = record { after = k.after; done = k.done; kept = k.kept; balance = k.balance }

  copy_construct_lem :
      (l m : ℕ) (q : Wrapper)
      → find_key m s.objs ≡ some q
      → (l == m) ≡ false
      → Keeps none_wrapped s (copy_construct l m s)
  unfolding copy_construct with_empty
  copy_construct_lem l m q there ne = from_empty l _ (
      copy_assign_lem (with_empty l) (emplaced s i l) l m empty q (placed l)
        (others l m ne ∙ there))

  move_construct_lem :
      (l m : ℕ) (q : Wrapper)
      → find_key m s.objs ≡ some q
      → (l == m) ≡ false
      → Keeps none_wrapped s (move_construct l m s)
  unfolding move_construct with_empty
  move_construct_lem l m q there ne = from_empty l _ (
      move_assign_lem (with_empty l) (emplaced s i l) l m empty q (placed l)
        (others l m ne ∙ there))

  cursor_copy_lem :
      (l m : ℕ) (q : Wrapper)
      → find_key m s.objs ≡ some q
      → Keeps none_wrapped s (cursor_copy_construct l m s)
  unfolding cursor_copy_construct
  cursor_copy_lem l m q there =
      rw (get_ok m q s there) (construct_from_lem s i l q.pointer m q there).0

  cursor_assign_lem :
      (l m : ℕ) (p q : Wrapper)
      → find_key l s.objs ≡ some p
      → find_key m s.objs ≡ some q
      → Keeps none_wrapped s (cursor_assign l m s)
  unfolding cursor_assign
  cursor_assign_lem l m p q here there =
      rw (get_ok m q s there) (assign_lem s i l p q here (live s i m q there))

  cursor_self_lem : (l m : ℕ) → (l == m) ≡ true → Keeps none_wrapped s (cursor_move_assign l m s)
  unfolding cursor_move_assign
  cursor_self_lem l m same = rw same (unchanged s i)

module _ {C : Type 0} where
  pub perform-Keeps :
      (a : Action) (s : State C) → Owned s → Allowed a s → Keeps (wrapped_by a) s (perform a s)
  unfolding perform Allowed
  perform-Keeps (wraps l p k) s i h = construct_lem s i l p k
  perform-Keeps (refers l p m) s i (q, there) = (construct_from_lem s i l p m q there).0
  perform-Keeps (copies l m) s i ((q, there), ne) = copy_construct_lem s i l m q there ne
  perform-Keeps (moves l m) s i ((q, there), ne) = move_construct_lem s i l m q there ne
  perform-Keeps (assigns l m) s i ((p, here), (q, there)) = copy_assign_lem s i l m p q here there
  perform-Keeps (move_assigns l m) s i ((p, here), (q, there)) =
      move_assign_lem s i l m p q here there
  perform-Keeps (cursor_copies l m) s i (q, there) = cursor_copy_lem s i l m q there
  perform-Keeps (cursor_assigns l m) s i ((p, here), (q, there)) =
      cursor_assign_lem s i l m p q here there
  perform-Keeps (cursor_move_assigns l m) s i ((p, here), (q, there)) = elim (Bool-cases (l == m)) [
    | inl same ↦ cursor_self_lem s i l m same
    | inr ne ↦ cursor_move_lem s i l m p q here there ne
  ]
  perform-Keeps (destroys l) s i (p, here) = (destroy_lem s i l p here).0
