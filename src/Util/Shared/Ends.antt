-- ===== src/Util/Shared/Ends.antt =====
-- Whole histories of a program's wrappers: they return, what is shared is not destroyed, and when the
-- objects have ended, each native object has been destroyed.
use waylandpp.Prelude.{ℕ, ◌+◌, ◌≡◌, ◌≢◌, refl, sym, ap, ◌∙◌, some, List, [], ◌∷◌, arith, ==_self}
use waylandpp.Prelude.Assoc.{Assoc, find_key, erase_key, tally}
use std.Path.{subst}
use waylandpp.Runtime.{Outcome, ok, thrown, fault, out_of_fuel, pure, ◌>>◌}
use waylandpp.Util.Shared.{Wrapper, State, Exec, destroy, native_of}
use waylandpp.Util.Shared.Blocks.{Below, none_alive, uses_at, sharers, alive}
use waylandpp.Util.Shared.Counts.{native-alive, destroyed, Owned}
use waylandpp.Util.Shared.Actions.{Action, wrapped_by, perform, Allowed, Keeps}
use waylandpp.Util.Shared.Operations.{destroy_lem, live}
use waylandpp.Util.Shared.Performed.{perform-Keeps}

abbrev pub wrapped_in : List Action → ℕ → ℕ
wrapped_in [] x = 0
wrapped_in (a ∷ acts) x = wrapped_by a x + wrapped_in acts x

found : (l : ℕ) (p : Wrapper) (os : Assoc Wrapper) → find_key l ((l, p) ∷ os) ≡ some p
unfolding find_key
found l p os = rw (==_self l) refl

gone : (l : ℕ) (p : Wrapper) (os : Assoc Wrapper) → erase_key l ((l, p) ∷ os) ≡ os
unfolding erase_key
gone l p os = rw (==_self l) refl

from_start : (n w : ℕ) → n ≡ 0 + 0 + w → n ≡ w
from_start n w e = omega (arith, e)

module _ {C : Type 0} where
  abbrev pub start : State C
  start = record { objs = []; blocks = []; next = 1; calls = [] }

  unfoldable pub run : List Action → Exec C (Unit {0})
  run [] = pure tt
  run (a ∷ acts) = do perform a; run acts

  abbrev pub HoldsAfter : Outcome (State C) (Unit {0}) → (State C → Type 0) → Type 0
  HoldsAfter (ok _ s) holds = holds s
  HoldsAfter (thrown _ _) holds = Unit {0}
  HoldsAfter fault holds = Unit {0}
  HoldsAfter out_of_fuel holds = Unit {0}

  -- Each action is allowed in the state that the actions before it leave, if they return.
  unfoldable pub AllAllowed : List Action → State C → Type 0
  AllAllowed [] s = Unit {0}
  AllAllowed (a ∷ acts) s = Allowed a s × HoldsAfter (perform a s) (AllAllowed acts)

  -- The end of the objects
  unfoldable pub destroy_each : Assoc Wrapper → Exec C (Unit {0})
  destroy_each [] = pure tt
  destroy_each ((l, _) ∷ os) = do destroy l; destroy_each os

  unfoldable pub destroy_rest : Exec C (Unit {0})
  unfolding destroy_each
  destroy_rest s = destroy_each s.objs s

  start-Owned : Owned start
  unfolding tally find_key Below
  start-Owned = record { counted = λ d nz. refl; below = tt; next_pos = omega arith }

  run-Keeps :
      (acts : List Action) (s : State C)
      → Owned s
      → AllAllowed acts s
      → Keeps (wrapped_in acts) s (run acts s)
  unfolding run AllAllowed
  run-Keeps [] s i h = record { after = s; done = refl; kept = i; balance = λ x nz. omega arith }
  run-Keeps (a ∷ acts) s i (allowed, rest) =
      let one = perform-Keeps a s i allowed in
      let all =
        run-Keeps acts one.after one.kept
          (subst (λ o. HoldsAfter o (AllAllowed acts)) one.done rest) in
      record {
        after = all.after;
        done = rw one.done all.done;
        kept = all.kept;
        balance = λ x nz. omega (arith, one.balance x nz, all.balance x nz);
      }

  -- The end of all objects returns with right counts, and loses no native object.
  ends_lem :
      (os : Assoc Wrapper) (s : State C)
      → Owned s
      → s.objs ≡ os
      → (k : Keeps (wrapped_in []) s (destroy_each os s)) × (k.after.objs ≡ [])
  unfolding destroy_each
  ends_lem [] s i e =
      (record { after = s; done = refl; kept = i; balance = λ x nz. omega arith }, e)
  ends_lem ((l, p) ∷ os) s i e =
      let (one, (erased, objects)) = destroy_lem s i l p (rw e (found l p os)) in
      let (all, empty) = ends_lem os one.after one.kept (erased ∙ rw e (gone l p os)) in
      (
        record {
          after = all.after;
          done = rw one.done all.done;
          kept = all.kept;
          balance = λ x nz. omega (arith, one.balance x nz, all.balance x nz);
        },
        empty,
      )

  abbrev left_state : Outcome (State C) (Unit {0}) → State C
  left_state (ok _ s) = s
  left_state (thrown _ s) = s
  left_state fault = start
  left_state out_of_fuel = start

  balanced :
      (x : ℕ) (s t : State C) (w : ℕ)
      → x ≢ 0
      → alive x s.blocks + destroyed x s.calls ≡ w
      → alive x t.blocks + destroyed x t.calls ≡ alive x s.blocks + destroyed x s.calls + 0
      → Owned t
      → t.objs ≡ []
      → destroyed x t.calls ≡ w
  unfolding tally
  balanced x s t w nz whole same i empty =
      let none_used : (d : ℕ) → d ≢ 0 → uses_at d t.blocks ≡ 0 =
        λ d dz. sym (i.counted d dz) ∙ ap (sharers d) empty in
      omega (arith, whole, same, none_alive t.next t.blocks i.below none_used x nz)

  -- A history of allowed actions returns, and the end of all objects that it leaves returns as well. Every
  -- native object has then been destroyed exactly as often as the history made an owner of it.
  pub destroy_rest_lem :
      (x : ℕ) (acts : List Action)
      → x ≢ 0
      → AllAllowed acts start
      → (s t : State C) × ((run acts start ≡ ok tt s)
          × ((destroy_rest s ≡ ok tt t)
              × ((t.objs ≡ []) × (destroyed x t.calls ≡ wrapped_in acts x))))
  unfolding destroy_rest tally destroyed
  destroy_rest_lem x acts nz h =
      let k = run-Keeps acts start start-Owned h in
      let (e, empty) = ends_lem k.after.objs k.after k.kept refl in
      (
        k.after,
        e.after,
        (
          k.done,
          (
            e.done,
            (
              empty,
              balanced x k.after e.after (wrapped_in acts x) nz
                  (from_start _ (wrapped_in acts x) (k.balance x nz)) (e.balance x nz) e.kept empty,
            ),
          ),
        ),
      )

  -- What an object shares is not destroyed: if a history of allowed actions that makes one owner of a native
  -- object leaves an object that shares it, the native object has not been destroyed.
  pub shared_stays :
      (acts : List Action) (s : State C) (l : ℕ) (p : Wrapper) (x : ℕ)
      → AllAllowed acts start
      → run acts start ≡ ok tt s
      → find_key l s.objs ≡ some p
      → native_of p.block s ≡ ok x s
      → x ≢ 0
      → wrapped_in acts x ≡ 1
      → destroyed x s.calls ≡ 0
  unfolding tally destroyed
  shared_stays acts s l p x h returns here shared nz one =
      let k = run-Keeps acts start start-Owned h in
      let same = ap left_state (sym k.done ∙ returns) in
      let kept : Owned s = subst Owned same k.kept in
      let whole = from_start _ (wrapped_in acts x) (k.balance x nz) in
      let left : alive x s.blocks + destroyed x s.calls ≡ wrapped_in acts x =
        subst (λ t. alive x t.blocks + destroyed x t.calls ≡ wrapped_in acts x) same whole in
      omega (arith, left, one, native-alive p.block x s (live s kept l p here) shared nz)
