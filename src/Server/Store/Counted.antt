-- ===== src/Server/Store/Counted.antt =====
-- What a class of handles promises: it gives references up and takes them so that the counters stay
-- right. The classes fill this interface; what follows from it is proved once.
use waylandpp.Prelude.{some, ℕ, ◌+◌, ◌≤◌, ◌<◌, ◌≡◌, ◌≢◌}
use waylandpp.Prelude.Assoc.{hit, find_key}
use waylandpp.Runtime.{Outcome, ok, u32_mod}
use waylandpp.Server.Store.{Handle, State, Exec}
use waylandpp.Server.Store.Inv.{count, Inv, no_refs}

-- A method that returns after it has given up the reference of `p`, which still stands in its
-- variable; the references that are lost thereafter are `lost'`.
pub record Gives (lost' owed : ℕ → ℕ) (p : Handle) (s : State) (o : Outcome State (Unit {0}))
    : Type 0 where
  pub after : State
  pub done : o ≡ ok tt after
  pub same_objs : after.objs ≡ s.objs
  pub less : (e : ℕ) → count (after.heap e) ≤ count (s.heap e)
  pub kept : Inv lost' (λ e. owed e + hit p.data_ptr e) after

-- A method that returns after it has counted a reference.
pub record Takes (lost owed : ℕ → ℕ) (s : State) (o : Outcome State (Unit {0})) : Type 0 where
  pub after : State
  pub done : o ≡ ok tt after
  pub same_objs : after.objs ≡ s.objs
  pub kept : Inv lost owed after

-- A constructor that returns with a handle in the variable `n`.
pub record Makes (lost : ℕ → ℕ) (n : ℕ) (s : State) (o : Outcome State (Unit {0})) : Type 0 where
  pub made : Handle
  pub after : State
  pub done : o ≡ ok tt after
  pub there : find_key n after.objs ≡ some made
  pub kept : Inv lost no_refs after

pub record Counted : Type 1 where
  -- The start of destruction and of copy assignment, the counting of a copy, and the constructor
  -- from a native object
  pub give : Handle → Exec (Unit {0})
  pub take : ℕ → Exec (Unit {0})
  pub construct : ℕ → ℕ → Exec (Unit {0})
  -- What they ask for
  pub MayGive : Handle → State → Type 0
  pub MayTake : ℕ → Type 0
  pub MayConstruct : ℕ → State → Type 0
  -- The references that are never given up
  pub loses : Handle → ℕ → ℕ
  pub give_lem :
      (lost owed : ℕ → ℕ) (s : State) (p : Handle)
      → Inv lost owed s
      → MayGive p s
      → (p.data_ptr ≢ 0 → 0 < count (s.heap p.data_ptr))
      → Gives (λ e. lost e + loses p e) owed p s (give p s)
  pub take_lem :
      (lost owed : ℕ → ℕ) (s : State) (d : ℕ)
      → Inv lost (λ e. owed e + hit d e) s
      → MayTake d
      → (d ≢ 0 → 0 < count (s.heap d))
      → count (s.heap d) + 1 < u32_mod
      → Takes lost owed s (take d s)
  pub construct_lem :
      (lost : ℕ → ℕ) (s : State) (n p : ℕ)
      → Inv lost no_refs s
      → MayConstruct p s
      → Makes lost n s (construct n p s)
