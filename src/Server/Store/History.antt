-- ===== src/Server/Store/History.antt =====
-- Histories of the handles of one class: the actions of a program, one after the other.
use waylandpp.Prelude.{
  ℕ, ◌+◌, ◌≤◌, ◌<◌, ◌≡◌, ◌≢◌, refl, false, some, List, [], ◌∷◌, arith, ◌==◌, Bool-cases, inl, inr,
  ◌∙◌,
}
use waylandpp.Prelude.Assoc.{find_key}
use waylandpp.Runtime.{Outcome, ok, thrown, fault, out_of_fuel, pure, and_then, u32_mod}
use waylandpp.Server.Store.{
  Handle, Cell, State, Exec, copy_construct_by, swap, move_construct_by, copy_assign_by, destroy_by,
}
use waylandpp.Server.Store.Inv.{count, Inv, no_refs, live, some_of_count, refs}
use waylandpp.Server.Store.Counted.{Counted}
use waylandpp.Server.Store.Steps.{
  Keeps, copy_construct-Keeps, move_construct-Keeps, copy_assign-Keeps, swap-Keeps, destroy-Keeps,
}

-- What a program does with the handles in its variables; `constructs n p` makes one in `n` from the
-- native object `p`, and `assigns n m` assigns `m` to `n`.
pub data Action : Type 0 where
  constructs copies moves assigns move_assigns : ℕ → ℕ → Action
  destroys : ℕ → Action

module _ (c : Counted) where
  unfoldable pub perform : Action → Exec (Unit {0})
  perform (constructs n p) = c.construct n p
  perform (copies n m) = copy_construct_by c.take n m
  perform (moves n m) = move_construct_by n m
  perform (assigns n m) = copy_assign_by c.give c.take n m
  perform (move_assigns n m) = swap n m
  perform (destroys n) = destroy_by c.give n

  -- The handle in a variable
  abbrev pub Holds : ℕ → State → Type 0
  Holds n s = (p : Handle) × (find_key n s.objs ≡ some p)

  -- A handle that may be copied: its data has room for one reference more.
  abbrev pub IsCopyable : ℕ → State → Type 0
  IsCopyable m s =
      (q : Handle) × ((find_key m s.objs ≡ some q)
        × (c.MayTake q.data_ptr × (count (s.heap q.data_ptr) + 1 < u32_mod)))

  -- A handle that may give its reference up
  abbrev pub IsGivable : ℕ → State → Type 0
  IsGivable n s = (p : Handle) × ((find_key n s.objs ≡ some p) × c.MayGive p s)

  abbrev pub Allowed : Action → State → Type 0
  Allowed (constructs n p) s = c.MayConstruct p s
  Allowed (copies n m) s = IsCopyable m s
  Allowed (moves n m) s = Holds m s × ((n == m) ≡ false)
  Allowed (assigns n m) s = IsGivable n s × IsCopyable m s
  Allowed (move_assigns n m) s = Holds n s × (Holds m s × ((n == m) ≡ false))
  Allowed (destroys n) s = IsGivable n s

  -- A class that gives every reference up
  abbrev pub LosesNone : Type 0
  LosesNone = (p : Handle) (d : ℕ) → c.loses p d ≡ 0

  -- Right counters, but for references that may have been lost
  pub record IsSafe (lost : ℕ → ℕ) (s : State) : Type 0 where
    pub more : ℕ → ℕ
    pub le : (d : ℕ) → lost d ≤ more d
    pub exact : LosesNone → (d : ℕ) → more d ≡ lost d
    pub kept : Inv more no_refs s

  abbrev pub Performs : (ℕ → ℕ) → Outcome State (Unit {0}) → Type 0
  Performs lost o = (t : State) × ((o ≡ ok tt t) × IsSafe lost t)

  none_lost : (lost : ℕ → ℕ) (s : State) → Inv lost no_refs s → IsSafe lost s
  none_lost lost s i = record {
    more = lost;
    le = λ d. omega arith;
    exact = λ none d. refl;
    kept = i;
  }

  kept_safe : (lost : ℕ → ℕ) (o : Outcome State (Unit {0})) → Keeps lost o → Performs lost o
  kept_safe lost o k = (k.after, (k.done, none_lost lost k.after k.kept))

  kept_losing :
      (lost : ℕ → ℕ) (p : Handle) (o : Outcome State (Unit {0}))
      → Keeps (λ d. lost d + c.loses p d) o
      → Performs lost o
  kept_losing lost p o k = (
    k.after,
    (
      k.done,
      record {
        more = λ d. lost d + c.loses p d;
        le = λ d. omega arith;
        exact = λ none d. omega (arith, none p d);
        kept = k.kept;
      },
    ),
  )

  perform-IsSafe :
      (lost : ℕ → ℕ) (s : State) (a : Action)
      → Inv lost no_refs s
      → Allowed a s
      → Performs lost (perform a s)
  unfolding perform copy_assign_by
  perform-IsSafe lost s (constructs n p) i may =
      let m = c.construct_lem lost s n p i may in (m.after, (m.done, none_lost lost m.after m.kept))
  perform-IsSafe lost s (copies n m) i (q, (there, (take, room))) =
      kept_safe lost _ (copy_construct-Keeps c lost s i n m q there take room)
  perform-IsSafe lost s (moves n m) i ((q, there), ne) =
      kept_safe lost _ (move_construct-Keeps c lost s n m q i there ne)
  perform-IsSafe lost s (assigns n m) i ((p, (here, give)), (q, (there, (take, room)))) =
      elim (Bool-cases (n == m)) [
        | inl same ↦ (s, (rw same refl, none_lost lost s i))
        | inr ne ↦
            kept_losing lost p _ (copy_assign-Keeps c lost s i n m p q here there ne give take room)
      ]
  perform-IsSafe lost s (move_assigns n m) i ((p, here), ((q, there), ne)) =
      kept_safe lost _ (swap-Keeps c lost s i n m p q here there ne)
  perform-IsSafe lost s (destroys n) i (p, (here, give)) =
      kept_losing lost p _ (destroy-Keeps c lost s i n p here give)

  unfoldable pub perform_all : List Action → Exec (Unit {0})
  perform_all [] s = pure tt s
  perform_all (a ∷ acts) s = and_then (perform a s) (λ _. perform_all acts)

  -- What holds of the state that an action leaves, if it returns
  abbrev pub After : (State → Type 0) → Outcome State (Unit {0}) → Type 0
  After P (ok a t) = P t
  After P (thrown e t) = Unit {0}
  After P fault = Unit {0}
  After P out_of_fuel = Unit {0}

  abbrev pub AllAllowed : List Action → State → Type 0
  AllAllowed [] s = Unit {0}
  AllAllowed (a ∷ acts) s = Allowed a s × After (AllAllowed acts) (perform a s)

  -- The data that a handle refers to is there.
  abbrev pub NoDangling : State → Type 0
  NoDangling t =
      (l : ℕ) (p : Handle)
      → find_key l t.objs ≡ some p
      → p.data_ptr ≢ 0
      → (d : Cell) × (t.heap p.data_ptr ≡ some d)

  run-IsSafe :
      (acts : List Action) (lost : ℕ → ℕ) (s : State)
      → Inv lost no_refs s
      → AllAllowed acts s
      → Performs lost (perform_all acts s)
  unfolding perform_all
  run-IsSafe [] lost s i h = (s, (refl, none_lost lost s i))
  run-IsSafe (a ∷ acts) lost s i h =
      let (u, (done, j)) = perform-IsSafe lost s a i h.0 in
      let (t, (rest, k)) = run-IsSafe acts j.more u j.kept (rw done at (h.1)) in
      (
        t,
        (
          rw done rest,
          record {
            more = k.more;
            le = λ d. omega (arith, j.le d, k.le d);
            exact = λ none d. k.exact none d ∙ j.exact none d;
            kept = k.kept;
          },
        ),
      )

  -- From a state with right counters every history of actions that the class allows runs to its end,
  -- without exception and without use of deleted data, and afterwards no handle dangles. A display is
  -- allowed to give up a reference only while no client, resource or event loop with data would end
  -- with it.
  pub run_handles-NoDangling :
      (acts : List Action) (lost : ℕ → ℕ) (s : State)
      → Inv lost no_refs s
      → AllAllowed acts s
      → (t : State) × ((perform_all acts s ≡ ok tt t) × NoDangling t)
  run_handles-NoDangling acts lost s i h =
      let (t, (done, j)) = run-IsSafe acts lost s i h in
      (t, (done, λ l p here nz. some_of_count _ (live j.more no_refs t j.kept l p here nz refl)))

  -- In a class that gives every reference up, from a state with right counters, a history of actions
  -- that the class allows leaves the counter of each data at the number of handles that refer to it,
  -- and of references lost before. A display is allowed to give up a reference only while no client,
  -- resource or event loop with data would end with it.
  pub run_handles-IsBalanced :
      LosesNone
      → (acts : List Action) (lost : ℕ → ℕ) (s : State) → Inv lost no_refs s
      → AllAllowed acts s
      → (t : State) × ((perform_all acts s ≡ ok tt t)
          × ((d : ℕ) → d ≢ 0 → refs d t.objs + lost d ≡ count (t.heap d)))
  run_handles-IsBalanced none acts lost s i h =
      let (t, (done, j)) = run-IsSafe acts lost s i h in
      (t, (done, λ d nz. omega (arith, j.exact none d, j.kept.owned d nz)))
