-- ===== src/Client/Proxy/History.antt =====
-- Histories of `proxy_t` objects: the actions of a program, one after the other.
use waylandpp.Prelude.{ℕ, ◌<◌, ◌≡◌, refl, ◌≢◌, some, List, [], ◌∷◌, arith}
use waylandpp.Runtime.{ok, thrown, fault, out_of_fuel, Outcome, pure, and_then, Env}
use waylandpp.Client.Proxy.Objects.{Proxy, Loc, get_obj, refs}
use waylandpp.Client.Proxy.{Call, ProxyData, State, Exec}
use waylandpp.Client.Proxy.Invariant.{count, Inv, no_refs, IsBalanced}
use waylandpp.Client.Proxy.Copies.{live, some_of_count}
use waylandpp.Client.Proxy.Lifecycle.{
  Action, perform, Allowed, IsTidy, IsSafe, LosesMore, perform-Inv, perform-LosesMore,
}

unfoldable pub perform_all : Env Call → List Action → Exec (Unit {0})
perform_all env [] s = pure tt s
perform_all env (a ∷ acts) s = and_then (perform env a s) (λ _. perform_all env acts)

-- What holds of the state that an action leaves, if it returns.
abbrev pub After : (State → Type 0) → Outcome State (Unit {0}) → Type 0
After P (ok a t) = P t
After P (thrown e t) = Unit {0}
After P fault = Unit {0}
After P out_of_fuel = Unit {0}

-- Every action is allowed in the state that those before it leave.
abbrev pub AllAllowed : Env Call → List Action → State → Type 0
AllAllowed env [] s = Unit {0}
AllAllowed env (a ∷ acts) s = Allowed env a s × After (AllAllowed env acts) (perform env a s)

abbrev pub AllTidy : Env Call → List Action → State → Type 0
AllTidy env [] s = Unit {0}
AllTidy env (a ∷ acts) s = IsTidy a s × After (AllTidy env acts) (perform env a s)

-- The data that an object refers to is there.
abbrev pub NoDangling : State → Type 0
NoDangling t =
    (l : Loc) (p : Proxy)
    → get_obj l t.objs ≡ some p
    → p.data_ptr ≢ 0
    → (c : ProxyData) × (t.heap p.data_ptr ≡ some c)

run-LosesMore :
    (env : Env Call) (acts : List Action) (lost : ℕ → ℕ) (s : State)
    → Inv lost no_refs s
    → AllAllowed env acts s
    → (t : State) × (perform_all env acts s ≡ ok tt t) × LosesMore lost t
unfolding perform_all
run-LosesMore env [] lost s i h = (s, refl, (lost, λ d. omega arith, i))
run-LosesMore env (a ∷ acts) lost s i h =
    let (u, done, (more, le, j)) = perform-LosesMore env lost s i a h.0 in
    let (t, rest, (most, le', k)) = run-LosesMore env acts more u j (rw done at (h.1)) in
    (t, rw done rest, (most, λ d. omega (arith, le d, le' d), k))

run-Inv :
    (env : Env Call) (acts : List Action) (lost : ℕ → ℕ) (s : State)
    → Inv lost no_refs s
    → AllAllowed env acts s
    → AllTidy env acts s
    → (t : State) × (perform_all env acts s ≡ ok tt t) × Inv lost no_refs t
unfolding perform_all
run-Inv env [] lost s i h tidy = (s, refl, i)
run-Inv env (a ∷ acts) lost s i h tidy =
    let (u, done, j) = perform-Inv env lost s i a h.0 tidy.0 in
    let (t, rest, k) = run-Inv env acts lost u j (rw done at (h.1)) (rw done at (tidy.1)) in
    (t, rw done rest, k)

-- From a safe state every history of allowed actions runs to its end, with no exception and no use
-- of deleted data, and leaves a safe state in which no object dangles.
pub run-NoDangling :
    (env : Env Call) (acts : List Action) (s : State)
    → IsSafe s
    → AllAllowed env acts s
    → (t : State) × (perform_all env acts s ≡ ok tt t) × IsSafe t × NoDangling t
run-NoDangling env acts s (lost, i) h =
    let (t, done, (more, le, j)) = run-LosesMore env acts lost s i h in
    (t, done, (more, j), λ l p here nz. some_of_count _ (live more t j l p here nz))

-- A history that overwrites no reference by a copy keeps the counter of each data at exactly the
-- number of objects that refer to it.
pub run-IsBalanced :
    (env : Env Call) (acts : List Action) (s : State)
    → IsBalanced s
    → AllAllowed env acts s
    → AllTidy env acts s
    → (t : State) × (perform_all env acts s ≡ ok tt t)
      × ((d : ℕ) → d ≢ 0 → refs d t.objs ≡ count (t.heap d))
      × IsBalanced t
run-IsBalanced env acts s i h tidy =
    let (t, done, j) = run-Inv env acts no_refs s i h tidy in
    (t, done, λ d nz. omega (arith, j.owned d nz), j)

-- Data that has lost a reference is never deleted: no history of allowed actions frees it.
pub run_keeps_lost :
    (env : Env Call) (acts : List Action) (lost : ℕ → ℕ) (s : State) (d : ℕ)
    → Inv lost no_refs s
    → AllAllowed env acts s
    → d ≢ 0
    → 0 < lost d
    → (t : State) × (perform_all env acts s ≡ ok tt t) × (refs d t.objs < count (t.heap d))
run_keeps_lost env acts lost s d i h nz leaked =
    let (t, done, (more, le, j)) = run-LosesMore env acts lost s i h in
    (t, done, omega (arith, j.owned d nz, le d))
