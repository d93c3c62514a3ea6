-- ===== src/Util/Any/Refines.antt =====
-- Programs on objects of type `any`, against objects that just hold values: a copy is equal and
-- independent, nothing leaks, and nothing is deleted twice.
use waylandpp.Prelude.{
  ℕ, ◌≡◌, ◌≢◌, refl, ap, ◌∙◌, false, Option, none, some, List, [], ◌∷◌, ◌==◌, ==_self,
}
use waylandpp.Prelude.Assoc.{Assoc, find_key, set_key}
use waylandpp.Runtime.{Outcome, ok, thrown, fault, out_of_fuel, and_then, pure}
use waylandpp.Util.Any.{State, Exec, construct, construct_from, move_construct}
use waylandpp.Util.Any.Owners.{Owned, live}
use waylandpp.Util.Any.Changes.{placed, placed-Owned, values-placed}
use waylandpp.Util.Any.Values.{values, owners}
use waylandpp.Util.Any.Actions.{
  Action, empties, makes, copies, moves, assigns, move_assigns, sets, destroys, perform, worth,
  intended, Allowed, Performs,
}
use waylandpp.Util.Any.Steps.{
  Performs-copy, Performs-destroy, Performs-set, Performs-assign, Performs-swap,
}

module _ {V : Type 0} where
  worth_self : (l : ℕ) (o : Option V) (a : Assoc (Option V)) → worth l ((l, o) ∷ a) ≡ o
  unfolding find_key worth
  worth_self l o a = rw (worth, ==_self l) refl

  worth_other :
      (l m : ℕ) (o : Option V) (a : Assoc (Option V))
      → (l == m) ≡ false
      → worth m ((l, o) ∷ a) ≡ worth m a
  unfolding worth find_key
  worth_other l m o a ne = rw (worth, ne) refl

  exchange_with_new :
      (l m : ℕ) (a : Assoc (Option V))
      → (l == m) ≡ false
      → intended (move_assigns l m) ((l, none) ∷ a) ≡ intended (moves l m) a
  unfolding intended set_key
  exchange_with_new l m a ne =
      rw (worth_self l none a, worth_other l m none a ne, ==_self l, ne) refl

  -- A move is the exchange with a new object that holds nothing.
  Performs-move :
      (type_of : V → ℕ) (s : State V) (i : Owned s) (l m q : ℕ)
      → find_key m s.objs ≡ some q
      → (l == m) ≡ false
      → Performs s (moves l m) (move_construct l m s)
  unfolding move_construct find_key
  Performs-move type_of s i l m q other ne =
      let u : State V = placed l none s in
      let r =
        Performs-swap type_of u (placed-Owned s i l none) l 0 m q (rw (==_self l) refl)
          (rw ne other) ne in
      record {
        after = r.after;
        done = r.done;
        kept = r.kept;
        holds =
            r.holds
            ∙ ap (intended (move_assigns l m)) (values-placed s i l none)
            ∙ exchange_with_new l m (values s.heap s.objs) ne;
      }

  -- Each action does to the values what it is intended to, returns, and leaves every value on the heap
  -- with one owner.
  pub perform-Performs :
      (type_of : V → ℕ) (s : State V) (a : Action V)
      → Owned s
      → Allowed a s
      → Performs s a (perform type_of a s)
  unfolding perform Allowed construct construct_from intended
  perform-Performs type_of s (empties l) i h = record {
    after = placed l none s;
    done = refl;
    kept = placed-Owned s i l none;
    holds = values-placed s i l none;
  }
  perform-Performs type_of s (makes l v) i h = record {
    after = placed l (some v) s;
    done = refl;
    kept = placed-Owned s i l (some v);
    holds = values-placed s i l (some v);
  }
  perform-Performs type_of s (copies l m) i (q, other) = Performs-copy type_of s i l m q other
  perform-Performs type_of s (moves l m) i ((q, other), ne) =
      Performs-move type_of s i l m q other ne
  perform-Performs type_of s (assigns l m) i ((p, here), (q, other)) =
      Performs-assign type_of s i l p m q here other
  perform-Performs type_of s (move_assigns l m) i ((p, here), ((q, other), ne)) =
      Performs-swap type_of s i l p m q here other ne
  perform-Performs type_of s (sets l v) i (p, here) = Performs-set type_of s i l p v here
  perform-Performs type_of s (destroys l) i (p, here) = Performs-destroy type_of s i l p here

  module _ (type_of : V → ℕ) where
    unfoldable pub perform_all : List (Action V) → Exec V (Unit {0})
    perform_all [] s = pure tt s
    perform_all (a ∷ acts) s = and_then (perform type_of a s) (λ _. perform_all acts)

    unfoldable pub intended_all : List (Action V) → Assoc (Option V) → Assoc (Option V)
    intended_all [] a = a
    intended_all (act ∷ acts) a = intended_all acts (intended act a)

    -- What holds of the state that an action leaves
    abbrev pub After : (State V → Type 0) → Outcome (State V) (Unit {0}) → Type 0
    After P (ok a t) = P t
    After P (thrown e t) = Unit {0}
    After P fault = Unit {0}
    After P out_of_fuel = Unit {0}

    abbrev pub AllAllowed : List (Action V) → State V → Type 0
    AllAllowed [] s = Unit {0}
    AllAllowed (a ∷ acts) s = Allowed a s × After (AllAllowed acts) (perform type_of a s)

    -- A program that names no object that is not there runs to its end, and its objects hold what they
    -- would if each held a value of its own; every value on the heap has one owner, so that nothing is
    -- left on the heap when all objects are gone.
    pub run-Refines :
        (acts : List (Action V)) (s : State V)
        → Owned s
        → AllAllowed acts s
        → (t : State V) × ((perform_all acts s ≡ ok tt t)
            × ((values t.heap t.objs ≡ intended_all acts (values s.heap s.objs))
                × ((d : ℕ) → d ≢ 0 → owners d t.objs ≡ live (t.heap d))))
    unfolding perform_all intended_all
    run-Refines [] s i h = (s, (refl, (refl, i.alone)))
    run-Refines (a ∷ acts) s i h =
        let p = perform-Performs type_of s a i h.0 in
        let (t, (done, (holds, alone))) = run-Refines acts p.after p.kept (rw p.done at (h.1)) in
        (t, (rw p.done done, (holds ∙ ap (intended_all acts) p.holds, alone)))
