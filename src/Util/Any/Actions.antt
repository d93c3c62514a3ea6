-- ===== src/Util/Any/Actions.antt =====
-- What a program does with objects of type `any`, and what that is intended to do to the values in them.
use waylandpp.Prelude.{ℕ, ◌≡◌, false, Option, none, some, ◌∷◌, ◌==◌}
use waylandpp.Prelude.Assoc.{Assoc, find_key, set_key, erase_key}
use waylandpp.Runtime.{Outcome, ok}
use waylandpp.Util.Any.{
  State, Exec, construct, construct_from, copy_construct, move_construct, move_assign, copy_assign,
  assign, destroy,
}
use waylandpp.Util.Any.Owners.{Owned}
use waylandpp.Util.Any.Values.{values}

-- What a program does: the first number is the object that changes.
pub data Action (V : Type 0) : Type 0 where
  empties : ℕ → Action V
  makes : ℕ → V → Action V
  copies moves assigns move_assigns : ℕ → ℕ → Action V
  sets : ℕ → V → Action V
  destroys : ℕ → Action V

module _ {V : Type 0} (type_of : V → ℕ) where
  unfoldable pub perform : Action V → Exec V (Unit {0})
  perform (empties l) = construct l
  perform (makes l v) = construct_from l v
  perform (copies l m) = copy_construct l m
  perform (moves l m) = move_construct l m
  perform (assigns l m) = copy_assign l m
  perform (move_assigns l m) = move_assign l m
  perform (sets l v) = assign type_of l v
  perform (destroys l) = destroy l

module _ {V : Type 0} where
  -- The value in an object, if it holds any
  unfoldable pub worth : ℕ → Assoc (Option V) → Option V
  worth m a = elim (find_key m a) [ none ↦ none | some o ↦ o ]

  -- The same on objects that hold values
  unfoldable pub intended : Action V → Assoc (Option V) → Assoc (Option V)
  intended (empties l) a = (l, none) ∷ a
  intended (makes l v) a = (l, some v) ∷ a
  intended (copies l m) a = (l, worth m a) ∷ a
  intended (moves l m) a = (l, worth m a) ∷ set_key m none a
  intended (assigns l m) a = set_key l (worth m a) a
  intended (move_assigns l m) a = set_key m (worth l a) (set_key l (worth m a) a)
  intended (sets l v) a = set_key l (some v) a
  intended (destroys l) a = erase_key l a

  abbrev pub IsThere : ℕ → State V → Type 0
  IsThere l s = (p : ℕ) × (find_key l s.objs ≡ some p)

  -- The objects that an action names are there.
  unfoldable pub Allowed : Action V → State V → Type 0
  Allowed (empties l) s = Unit {0}
  Allowed (makes l v) s = Unit {0}
  Allowed (copies l m) s = IsThere m s
  Allowed (moves l m) s = IsThere m s × ((l == m) ≡ false)
  Allowed (assigns l m) s = IsThere l s × IsThere m s
  Allowed (move_assigns l m) s = IsThere l s × (IsThere m s × ((l == m) ≡ false))
  Allowed (sets l v) s = IsThere l s
  Allowed (destroys l) s = IsThere l s

  -- The action returns, in a state that is right again, with the values that are intended.
  pub record Performs (s : State V) (a : Action V) (o : Outcome (State V) (Unit {0})) : Type 0 where
    pub after : State V
    pub done : o ≡ ok tt after
    pub kept : Owned after
    pub holds : values after.heap after.objs ≡ intended a (values s.heap s.objs)
