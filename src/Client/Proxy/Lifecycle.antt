-- ===== src/Client/Proxy/Lifecycle.antt =====
-- The life of `proxy_t` objects: any sequence of constructions, copies, moves and destructions.
use waylandpp.Prelude.{
  ℕ, suc, ◌+◌, ◌≤◌, ◌<◌, ◌≡◌, refl, ◌≢◌, true, false, ◌||◌, some, arith, ◌==◌, Bool-cases, inl, inr,
  ◌⊎◌, ap, ==_self,
}
use waylandpp.Runtime.{ok, Env, u32_mod}
use waylandpp.Client.Proxy.Objects.{
  refs, WrapperType, display, Proxy, var, get_obj, hit, null_proxy,
}
use waylandpp.Client.Proxy.{Call, State, Exec, is_foreign, destroy}
use waylandpp.Client.Proxy.Methods.{
  abandon, is_valid, construct, copy_construct, copy_assign, move_construct, move_assign,
}
use waylandpp.Client.Proxy.Invariant.{IsBalanced, count, Inv, no_refs, get-Fits}
use waylandpp.Client.Proxy.Destructor.{destroy_lem}
use waylandpp.Client.Proxy.Copies.{
  copied, HasRoom, emplaced-Inv, copied-Inv, swapped, swapped-Inv, live, copy_assign_ok,
  move_assign_ok,
}
use waylandpp.Client.Proxy.Construct.{
  wrapping, placed, found, with_new, with_found, construct_bare, construct_new, construct_reuses,
  with_new-Inv, with_found-Inv, lost_null,
}

-- What user code does to the objects in its variables.
pub data Action : Type 0 where
  constructs : ℕ → ℕ → WrapperType → ℕ → Action
  copies moves assigns move_assigns : ℕ → ℕ → Action
  destroys : ℕ → Action

-- A destructor is given more fuel than there is data.
unfoldable pub perform : Env Call → Action → Exec (Unit {0})
perform env (constructs n p t queue) = construct env (var n) p t queue
perform env (copies n m) = copy_construct (var n) (var m)
perform env (moves n m) = move_construct (var n) (var m)
perform env (assigns n m) = copy_assign (var n) (var m)
perform env (move_assigns n m) = move_assign (var n) (var m)
perform env (destroys n) = λ s. destroy (suc s.next) (var n) s

-- The object in a variable.
abbrev pub Holds : ℕ → State → Type 0
Holds n s = (p : Proxy) × (get_obj (var n) s.objs ≡ some p)

-- An object that may be copied: its members agree with its type, and its data has room for one
-- reference more.
pub record IsCopyable (m : ℕ) (s : State) : Type 0 where
  pub source : Proxy
  pub there : get_obj (var m) s.objs ≡ some source
  pub valid : is_valid source ≡ true
  pub room : HasRoom source s

-- The user data that the library returns is live and has room for one reference more, or is null.
abbrev pub IsSound : Env Call → ℕ → WrapperType → State → Type 0
IsSound env p t s =
    let d : ℕ = found env p t s.calls in
    (is_foreign t || p == 0) ≡ false
    → d ≢ 0
    → (0 < count (s.heap d)) × (count (s.heap d) + 1 < u32_mod)

-- When an action may be performed: a source and an object that is assigned to or destroyed exist,
-- and two places are two.
abbrev pub Allowed : Env Call → Action → State → Type 0
Allowed env (constructs n p t queue) s = IsSound env p t s
Allowed env (copies n m) s = IsCopyable m s × ((n == m) ≡ false)
Allowed env (moves n m) s = Holds m s × ((n == m) ≡ false)
Allowed env (assigns n m) s = Holds n s × IsCopyable m s
Allowed env (move_assigns n m) s = Holds n s × Holds m s
Allowed env (destroys n) s = Holds n s

-- Some counters may count references that were lost, but no reference is uncounted.
abbrev pub IsSafe : State → Type 0
IsSafe s = (lost : ℕ → ℕ) × Inv lost no_refs s

-- The action returns, in a state of the kind.
abbrev pub Keeps : (State → Type 0) → Env Call → Action → State → Type 0
Keeps P env a s = (t : State) × (perform env a s ≡ ok tt t) × P t

module _ (env : Env Call) (lost : ℕ → ℕ) (s : State) (i : Inv lost no_refs s) where
  pub constructs-Keeps :
      (n p : ℕ) (t : WrapperType) (queue : ℕ)
      → IsSound env p t s
      → Keeps (Inv lost no_refs) env (constructs n p t queue) s
  unfolding perform
  constructs-Keeps n p t queue sound = elim (Bool-cases (is_foreign t || p == 0)) [
    | inl bare ↦ (
      placed n (wrapping p t) s,
      construct_bare env n p t queue s bare,
      emplaced-Inv lost s i n (wrapping p t) refl,
    )
    | inr full ↦ elim (Bool-cases (found env p t s.calls == 0)) [
      | inl null ↦ (
        with_new n p t queue s,
        construct_new env n p t queue s full (ground (arith, null)),
        with_new-Inv lost s i n p t queue (ground (arith, full)),
      )
      | inr nonnull ↦
          (let d : ℕ = found env p t s.calls in
            let nz : d ≢ 0 = ground (arith, nonnull) in
            let ready = sound full nz in
            (
              with_found n p t d s,
              construct_reuses env n p t queue s d full refl nz ready.0,
              with_found-Inv lost s i n p t d (ground (arith, full)) ready.0 ready.1,
            ))
    ]
  ]

  assigns-Keeps :
      (n m : ℕ) (q : Proxy)
      → get_obj (var n) s.objs ≡ some q
      → IsCopyable m s
      → (n == m) ≡ false
      → Keeps (Inv (λ d. lost d + hit q.data_ptr d) no_refs) env (assigns n m) s
  unfolding perform
  assigns-Keeps n m q here c ne = (
    copied (var n) c.source s,
    copy_assign_ok lost s i (var n) (var m) c.source c.there ne c.valid,
    copied-Inv lost s i (var n) q c.source here (get-Fits (var m) c.source s.objs i.fits c.there)
        (live lost s i (var m) c.source c.there) c.room,
  )

  assigns_self : (n m : ℕ) → (n == m) ≡ true → Keeps (Inv lost no_refs) env (assigns n m) s
  unfolding perform copy_assign
  assigns_self n m same = (s, rw same refl, i)

  move_assigns-Keeps :
      (n m : ℕ) → Holds n s → Holds m s → Keeps (Inv lost no_refs) env (move_assigns n m) s
  unfolding perform
  move_assigns-Keeps n m (p, here) (q, there) = (
    swapped (var n) (var m) p q s,
    move_assign_ok (var n) (var m) p q s here there,
    swapped-Inv lost s i n m p q here there,
  )

  destroys-Keeps : (n : ℕ) → Holds n s → Keeps (Inv lost no_refs) env (destroys n) s
  unfolding perform
  destroys-Keeps n (p, here) =
      let (t, done, is) =
        destroy_lem s.next lost no_refs (var n) p s i here tt (λ j le. refl)
          (ground (arith, i.fresh p.data_ptr, live lost s i (var n) p here)) in
      (t, done, is.inv)

module _ (env : Env Call) (lost : ℕ → ℕ) (s : State) (i : Inv lost no_refs s) where
  emplaced : ℕ → State
  emplaced n = placed n null_proxy s

  copies-Keeps :
      (n m : ℕ) → IsCopyable m s → (n == m) ≡ false → Keeps (Inv lost no_refs) env (copies n m) s
  unfolding perform copy_construct get_obj emplaced
  copies-Keeps n m c ne =
      let new = emplaced-Inv lost s i n null_proxy refl in
      let (t, done, kept) =
        assigns-Keeps env lost (emplaced n) new n m null_proxy (rw (==_self n))
          (record { source = c.source; there = rw ne c.there; valid = c.valid; room = c.room })
          ne in
      (t, ap (abandon (var n)) done, lost_null lost (emplaced n) new n 0 display t kept)

  moves-Keeps :
      (n m : ℕ) → Holds m s → (n == m) ≡ false → Keeps (Inv lost no_refs) env (moves n m) s
  unfolding perform move_construct get_obj emplaced
  moves-Keeps n m (q, there) ne =
      move_assigns-Keeps env lost (emplaced n) (emplaced-Inv lost s i n null_proxy refl) n m
        (null_proxy, rw (==_self n)) (q, rw ne there)

-- An assignment that overwrites no reference; all other actions are tidy.
abbrev pub IsTidy : Action → State → Type 0
IsTidy (assigns n m) s =
    ((n == m) ≡ true) ⊎ ((q : Proxy) → get_obj (var n) s.objs ≡ some q → q.data_ptr ≡ 0)
IsTidy (constructs n p t queue) s = Unit {0}
IsTidy (copies n m) s = Unit {0}
IsTidy (moves n m) s = Unit {0}
IsTidy (move_assigns n m) s = Unit {0}
IsTidy (destroys n) s = Unit {0}

-- At least what was lost is lost.
abbrev pub LosesMore : (ℕ → ℕ) → State → Type 0
LosesMore lost t = (more : ℕ → ℕ) × ((d : ℕ) → lost d ≤ more d) × Inv more no_refs t

no_lost :
    (lost : ℕ → ℕ) (s : State) (z : ℕ)
    → z ≡ 0
    → Inv (λ d. lost d + hit z d) no_refs s
    → Inv lost no_refs s
no_lost lost s z e j = record {
  owned = λ d nz. ground (arith, j.owned d nz);
  fits = j.fits;
  members = j.members;
  fresh = j.fresh;
  small = j.small;
  null_free = j.null_free;
  next_pos = j.next_pos;
}

weaken :
    (env : Env Call) (lost : ℕ → ℕ) (a : Action) (s : State)
    → Keeps (Inv lost no_refs) env a s
    → Keeps (LosesMore lost) env a s
weaken env lost a s (t, done, j) = (t, done, (lost, λ d. omega arith, j))

module _ (env : Env Call) (lost : ℕ → ℕ) (s : State) (i : Inv lost no_refs s) where
  pub perform-Inv : (a : Action) → Allowed env a s → IsTidy a s → Keeps (Inv lost no_refs) env a s
  perform-Inv (constructs n p t queue) h tidy = constructs-Keeps env lost s i n p t queue h
  perform-Inv (copies n m) h tidy = copies-Keeps env lost s i n m h.0 h.1
  perform-Inv (moves n m) h tidy = moves-Keeps env lost s i n m h.0 h.1
  perform-Inv (move_assigns n m) h tidy = move_assigns-Keeps env lost s i n m h.0 h.1
  perform-Inv (destroys n) h tidy = destroys-Keeps env lost s i n h
  perform-Inv (assigns n m) (h, c) (inl same) = assigns_self env lost s i n m same
  perform-Inv (assigns n m) ((q, here), c) (inr empty) = elim (Bool-cases (n == m)) [
    | inl same ↦ assigns_self env lost s i n m same
    | inr ne ↦
        (let (t, done, j) = assigns-Keeps env lost s i n m q here c ne in
          (t, done, no_lost lost t q.data_ptr (empty q here) j))
  ]

  pub perform-LosesMore : (a : Action) → Allowed env a s → Keeps (LosesMore lost) env a s
  perform-LosesMore (assigns n m) ((q, here), c) = elim (Bool-cases (n == m)) [
    | inl same ↦ weaken env lost (assigns n m) s (assigns_self env lost s i n m same)
    | inr ne ↦
        (let (t, done, j) = assigns-Keeps env lost s i n m q here c ne in
          (t, done, (_, λ d. omega arith, j)))
  ]
  perform-LosesMore (constructs n p t queue) h =
      weaken env lost _ s (constructs-Keeps env lost s i n p t queue h)
  perform-LosesMore (copies n m) h = weaken env lost _ s (copies-Keeps env lost s i n m h.0 h.1)
  perform-LosesMore (moves n m) h = weaken env lost _ s (moves-Keeps env lost s i n m h.0 h.1)
  perform-LosesMore (move_assigns n m) h =
      weaken env lost _ s (move_assigns-Keeps env lost s i n m h.0 h.1)
  perform-LosesMore (destroys n) h = weaken env lost _ s (destroys-Keeps env lost s i n h)

-- A copy assigned over an object that refers to data, of an object that refers to other data, loses
-- a reference: it returns, and from then on the counter of the old data is one above the number of
-- objects that refer to it.
pub assign_leaks :
    (env : Env Call) (s : State) (n m : ℕ) (q : Proxy)
    → IsBalanced s
    → get_obj (var n) s.objs ≡ some q
    → IsCopyable m s
    → (n == m) ≡ false
    → q.data_ptr ≢ 0
    → (t : State) × (copy_assign (var n) (var m) s ≡ ok tt t)
      × (count (t.heap q.data_ptr) ≡ refs q.data_ptr t.objs + 1)
unfolding perform
assign_leaks env s n m q i here c ne nz =
    let (t, done, j) = assigns-Keeps env no_refs s i n m q here c ne in
    (t, done, ground (arith, j.owned q.data_ptr nz))
