-- ===== src/Util/Shared/Actions.antt =====
-- What a program does with wrappers, and what an action keeps.
use waylandpp.Prelude.{ℕ, ◌+◌, ◌≡◌, ◌≢◌, false, some, ◌==◌}
use waylandpp.Prelude.Assoc.{hit, find_key}
use waylandpp.Runtime.{Outcome, ok}
use waylandpp.Util.Shared.{
  Destroyer, Wrapper, State, Exec, construct, construct_from, copy_assign, copy_construct,
  move_assign, move_construct, cursor_copy_construct, cursor_assign, cursor_move_assign, destroy,
}
use waylandpp.Util.Shared.Blocks.{alive}
use waylandpp.Util.Shared.Counts.{destroyed, Owned}

-- `wraps l p k` makes a `refcounted_wrapper` in `l` from the native object `p`, and `refers l p m` a
-- wrapper that shares the object of `m`; the actions from `cursor_copies` on are those of the cursor
-- classes.
pub data Action : Type 0 where
  wraps : ℕ → ℕ → Destroyer → Action
  refers : ℕ → ℕ → ℕ → Action
  copies moves assigns move_assigns : ℕ → ℕ → Action
  cursor_copies cursor_assigns cursor_move_assigns : ℕ → ℕ → Action
  destroys : ℕ → Action

-- How often an action makes an owner of the native object `x`
abbrev pub wrapped_by : Action → ℕ → ℕ
wrapped_by (wraps l p k) x = hit p x
wrapped_by _ x = 0

abbrev pub none_wrapped : ℕ → ℕ
none_wrapped x = 0

module _ {C : Type 0} where
  unfoldable pub perform : Action → Exec C (Unit {0})
  perform (wraps l p k) = construct l p k
  perform (refers l p m) = construct_from l p m
  perform (copies l m) = copy_construct l m
  perform (moves l m) = move_construct l m
  perform (assigns l m) = copy_assign l m
  perform (move_assigns l m) = move_assign l m
  perform (cursor_copies l m) = cursor_copy_construct l m
  perform (cursor_assigns l m) = cursor_assign l m
  perform (cursor_move_assigns l m) = cursor_move_assign l m
  perform (destroys l) = destroy l

  abbrev pub IsThere : ℕ → State C → Type 0
  IsThere l s = (p : Wrapper) × (find_key l s.objs ≡ some p)

  -- The objects that an action names are there, and it does not exchange an object with itself.
  unfoldable pub Allowed : Action → State C → Type 0
  Allowed (wraps l p k) s = Unit {0}
  Allowed (refers l p m) s = IsThere m s
  Allowed (copies l m) s = IsThere m s × ((l == m) ≡ false)
  Allowed (moves l m) s = IsThere m s × ((l == m) ≡ false)
  Allowed (assigns l m) s = IsThere l s × IsThere m s
  Allowed (move_assigns l m) s = IsThere l s × IsThere m s
  Allowed (cursor_copies l m) s = IsThere m s
  Allowed (cursor_assigns l m) s = IsThere l s × IsThere m s
  Allowed (cursor_move_assigns l m) s = IsThere l s × IsThere m s
  Allowed (destroys l) s = IsThere l s

  -- The action returns with right counts; each native object is alive or destroyed as often as before,
  -- and once more for each time that it was wrapped.
  pub record Keeps (wrapped : ℕ → ℕ) (s : State C) (o : Outcome (State C) (Unit {0})) : Type 0 where
    pub after : State C
    pub done : o ≡ ok tt after
    pub kept : Owned after
    pub balance :
        (x : ℕ)
        → x ≢ 0
        → alive x after.blocks + destroyed x after.calls
          ≡ alive x s.blocks + destroyed x s.calls + wrapped x
