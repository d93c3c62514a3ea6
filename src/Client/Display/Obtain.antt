-- ===== src/Client/Display/Obtain.antt =====
-- The loop of `obtain_read_intent` and `obtain_queue_read_intent`: the rounds in which the library
-- refuses, and the preparations that it accepts (src/wayland-client.cpp).
use Prim.Native.String.{String}
use waylandpp.Prelude.{
  ℕ, zero, suc, ◌+◌, ◌≡◌, refl, ◌⊎◌, Bool, true, false, [], ◌∷◌, if◌then◌else◌, arith, ◌==◌,
  Bool-cases, inl, inr,
}
use waylandpp.Prelude.Int.{ℤ, is_zero, is_negative}
use waylandpp.Runtime.{Error, invalid_argument, Outcome, ok, thrown, system_error, Env, M}
use waylandpp.Client.Display.{
  wl_display_dispatch_queue_pending, wl_display_prepare_read_queue, dispatch_queue_pending,
  obtain_queue_read_intent, DisplayCall, wl_display_prepare_read, wl_display_dispatch_pending,
  History, ReadIntent, new_intent, check_return_value, dispatch_pending, obtain, obtain_read_intent,
  checked,
}

module _ (env : Env DisplayCall) (eagain : ℕ) where
  -- The preparations that the library has accepted
  unfoldable pub prepared : History → ℕ
  prepared [] = 0
  prepared (c ∷ h) = elim c [
    | wl_display_prepare_read d ↦
        (if is_zero (env.int h (wl_display_prepare_read d)) then 1 else 0) + prepared h
    | wl_display_prepare_read_queue d q ↦
        (if is_zero (env.int h (wl_display_prepare_read_queue d q)) then 1 else 0) + prepared h
    | _ ↦ prepared h
  ]

  -- The library refuses `prepare` with EAGAIN and dispatches the events that wait without error.
  unfoldable pub refused : (prepare pending : DisplayCall) → History → Bool
  refused prepare pending h =
      if is_zero (env.int h prepare)
      then false
      else if env.errno (prepare ∷ h) == eagain
      then (if is_negative (env.int (prepare ∷ h) pending) then false else true)
      else false

  -- It does so in `n` rounds in a row.
  unfoldable pub refuses : (prepare pending : DisplayCall) → ℕ → History → Bool
  refuses prepare pending zero h = true
  refuses prepare pending (suc n) h =
      if refused prepare pending h then refuses prepare pending n (pending ∷ prepare ∷ h) else false

  -- An intent of `d` and `q` that is not final, for which one preparation more has been accepted, or
  -- an error, with no such preparation
  abbrev pub TakesOne : (d q : ℕ) → History → Outcome History ReadIntent → Type 0
  TakesOne d q h o =
      ((u : History) × ((o ≡ ok (record { display = d; event_queue = q; finalized = false }) u)
          × (prepared u ≡ prepared h + 1)))
      ⊎ ((e : Error) × ((u : History) × ((o ≡ thrown e u) × (prepared u ≡ prepared h))))

  -- What dispatching the events that wait does, with a display
  abbrev pub Dispatches : String → M History ℤ → DisplayCall → Type 0
  Dispatches name pending c =
      (h : History)
      → pending h ≡ (
          if is_negative (env.int h c)
          then thrown (system_error (env.errno (c ∷ h)) name) (c ∷ h)
          else ok (env.int h c) (c ∷ h))

  obtain_lem :
      (d q fuel : ℕ) (prepare : ℕ → DisplayCall) (pending : M History ℤ) (c : DisplayCall)
      (name called : String) (h : History)
      → (d == 0) ≡ false
      → Dispatches called pending c
      → ((u : History)
          → prepared (prepare d ∷ u)
            ≡ (if is_zero (env.int u (prepare d)) then 1 else 0) + prepared u)
      → ((u : History) → prepared (c ∷ u) ≡ prepared u)
      → refuses (prepare d) c fuel h ≡ false
      → TakesOne d q h (obtain env eagain prepare pending name fuel d q h)
  unfolding obtain refuses refused new_intent
  obtain_lem d q zero prepare pending c name called h nz disp one none_more stops =
      ground (arith, stops)
  obtain_lem d q (suc fuel) prepare pending c name called h nz disp one none_more stops =
      elim (Bool-cases (is_zero (env.int h (prepare d)))) [
        | inl z ↦ inl (prepare d ∷ h, (rw (nz, z, nz) refl, rw (one h, z) (omega arith)))
        | inr z ↦ elim (Bool-cases (env.errno (prepare d ∷ h) == eagain)) [
          | inr a ↦ inr (
            system_error (env.errno (prepare d ∷ h)) name,
            (prepare d ∷ h, (rw (nz, z, a) refl, rw (one h, z) (omega arith))),
          )
          | inl a ↦ elim (Bool-cases (is_negative (env.int (prepare d ∷ h) c))) [
            | inl g ↦ inr (
              system_error (env.errno (c ∷ prepare d ∷ h)) called,
              (
                c ∷ prepare d ∷ h,
                (
                  rw (nz, z, a, disp (prepare d ∷ h), g) refl,
                  rw (none_more, one h, z) (omega arith),
                ),
              ),
            )
            | inr g ↦
                let more : refuses (prepare d) c fuel (c ∷ prepare d ∷ h) ≡ false =
                  ground (arith, z, a, g, stops) in
                elim (obtain_lem d q fuel prepare pending c name called (c ∷ prepare d ∷ h) nz disp
                  one none_more more) [
                    | inl (u, (e, one_more)) ↦ inl (
                      u,
                      (
                        rw (nz, z, a, disp (prepare d ∷ h), g, e) refl,
                        rw (one_more, none_more, one h, z) (omega arith),
                      ),
                    )
                    | inr (x, (u, (e, same))) ↦ inr (
                      x,
                      (
                        u,
                        (
                          rw (nz, z, a, disp (prepare d ∷ h), g, e) refl,
                          rw (same, none_more, one h, z) (omega arith),
                        ),
                      ),
                    )
                  ]
          ]
        ]
      ]

-- Without a display the first round throws.
obtain_null :
    (env : Env DisplayCall) (eagain d q fuel : ℕ) (prepare : ℕ → DisplayCall)
    (pending : M History ℤ) (p c : DisplayCall) (name : String) (h : History)
    → (d == 0) ≡ true
    → refuses env eagain p c fuel h ≡ false
    → TakesOne env eagain d q h (obtain env eagain prepare pending name fuel d q h)
unfolding obtain refuses
obtain_null env eagain d q zero prepare pending p c name h z stops = ground (arith, stops)
obtain_null env eagain d q (suc fuel) prepare pending p c name h z stops =
    inr (invalid_argument "proxy is NULL", (h, (rw z refl, refl)))

-- What `checked` does with a display
checked-Dispatches :
    (env : Env DisplayCall) (eagain d : ℕ) (name : String) (call : ℕ → DisplayCall)
    → (d == 0) ≡ false
    → Dispatches env eagain name (checked env eagain name call d) (call d)
unfolding check_return_value
checked-Dispatches env eagain d name call nz h =
    elim (Bool-cases (is_negative (env.int h (call d)))) [
      | inl g ↦ rw (nz, g) refl
      | inr g ↦ rw (nz, g) refl
    ]

module _ (env : Env DisplayCall) (eagain d fuel : ℕ) (h : History) where
  -- Unless the library, with events dispatched in between, refuses the preparation as often as there
  -- is fuel, `obtain_read_intent` returns or throws. If it returns, the intent is one of the display
  -- and is not final, and the library has accepted one preparation; if it throws, be it for a null
  -- display, another error of the preparation or an error of the dispatch, none.
  pub obtain_read_intent_lem :
      refuses env eagain (wl_display_prepare_read d) (wl_display_dispatch_pending d) fuel h ≡ false
      → TakesOne env eagain d 0 h (obtain_read_intent env eagain fuel d h)
  unfolding obtain_read_intent dispatch_pending prepared
  obtain_read_intent_lem stops = elim (Bool-cases (d == 0)) [
    | inl z ↦ obtain_null env eagain d 0 fuel _ _ _ _ _ h z stops
    | inr nz ↦
        obtain_lem env eagain d 0 fuel wl_display_prepare_read _ _ _ _ h nz
          (checked-Dispatches env eagain d _ wl_display_dispatch_pending nz) (λ u. refl) (λ u. refl)
          stops
  ]

  -- The same of `obtain_queue_read_intent`, whose intent is one of the queue
  pub obtain_queue_read_intent_lem :
      (q : ℕ)
      → refuses env eagain
          (wl_display_prepare_read_queue d q)
          (wl_display_dispatch_queue_pending d q)
          fuel
          h
        ≡ false
      → TakesOne env eagain d q h (obtain_queue_read_intent env eagain fuel d q h)
  unfolding obtain_queue_read_intent dispatch_queue_pending prepared
  obtain_queue_read_intent_lem q stops = elim (Bool-cases (d == 0)) [
    | inl z ↦ obtain_null env eagain d q fuel _ _ _ _ _ h z stops
    | inr nz ↦
        obtain_lem env eagain d q fuel (λ p. wl_display_prepare_read_queue p q) _ _ _ _ h nz
          (checked-Dispatches env eagain d _ (λ p. wl_display_dispatch_queue_pending p q) nz)
          (λ u. refl) (λ u. refl) stops
  ]
