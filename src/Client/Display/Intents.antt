-- ===== src/Client/Display/Intents.antt =====
-- The life of a `read_intent` and how often its read is resolved (src/wayland-client.cpp,
-- include/wayland-client.hpp).
use waylandpp.Prelude.{
  ℕ, suc, ◌+◌, ◌≡◌, refl, false, List, [], ◌∷◌, if◌then◌else◌, arith, Bool-cases, inl, inr,
}
use waylandpp.Prelude.Int.{is_zero}
use waylandpp.Runtime.{Outcome, ok, thrown, fault, out_of_fuel, Env}
use waylandpp.Client.Display.{
  DisplayCall, wl_display_cancel_read, wl_display_read_events, History, ReadIntent, move_intent,
  cancel, read, destroy_intent,
}

-- What a program calls on an intent before it is destroyed
pub data Use : Type 0 where
  cancels : Use
  reads : Use

module _ (env : Env DisplayCall) (eagain : ℕ) where
  -- The method returns the intent as it leaves it; after an exception the intent is as it was.
  abbrev pub after_use :
      ReadIntent → Outcome History ReadIntent → ReadIntent × History → ReadIntent × History
  after_use i (ok j h) other = (j, h)
  after_use i (thrown e h) other = (i, h)
  after_use i fault other = other
  after_use i out_of_fuel other = other

  unfoldable pub use_intent : Use → ReadIntent → History → ReadIntent × History
  use_intent cancels i h = after_use i (cancel env eagain i h) (i, h)
  use_intent reads i h = after_use i (read env eagain i h) (i, h)

  -- The uses and the destructor
  unfoldable pub live : List Use → ReadIntent → History → History
  live [] i h = destroy_intent env eagain i h
  live (u ∷ us) i h = let r = use_intent u i h in live us (r.0) (r.1)

  -- The calls that resolve a prepared read by the description of `read_intent`: reads and cancellations
  unfoldable pub resolved : History → ℕ
  resolved [] = 0
  resolved (c ∷ h) = elim c [
    | wl_display_cancel_read d ↦ suc (resolved h)
    | wl_display_read_events d ↦ suc (resolved h)
    | _ ↦ resolved h
  ]

  -- The reads among them that report an error
  unfoldable pub failed : History → ℕ
  failed [] = 0
  failed (c ∷ h) = elim c [
    | wl_display_read_events d ↦
        (if is_zero (env.int h (wl_display_read_events d)) then 0 else 1) + failed h
    | _ ↦ failed h
  ]

  abbrev pub due : ReadIntent → ℕ
  due i = if i.finalized then 0 else 1

  -- A use resolves what it makes final, or is a read that fails.
  use_due :
      (u : Use) (i : ReadIntent) (h : History)
      → due (use_intent u i h).0 + resolved (use_intent u i h).1 + failed h
        ≡ due i + resolved h + failed (use_intent u i h).1
  unfolding resolved failed use_intent cancel read
  use_due cancels i h = elim (Bool-cases i.finalized) [
    | inl f ↦ rw (f, cancel) refl
    | inr f ↦ rw (f, cancel) (omega arith)
  ]
  use_due reads i h = elim (Bool-cases i.finalized) [
    | inl f ↦ rw (f, read) refl
    | inr f ↦ elim (Bool-cases (is_zero (env.int h (wl_display_read_events i.display)))) [
      | inl z ↦ rw (f, read, z) (rw z (omega arith))
      | inr z ↦ rw (f, read, z) (rw z (omega arith))
    ]
  ]

  -- Whatever is called on an intent, when it has been destroyed its read has been resolved, by reads
  -- and cancellations, once for each read that failed, and once more if it was not final before.
  pub live_once :
      (us : List Use) (i : ReadIntent) (h : History)
      → resolved (live us i h) + failed h ≡ due i + resolved h + failed (live us i h)
  unfolding live resolved failed destroy_intent cancel
  live_once [] i h = elim (Bool-cases i.finalized) [
    | inl f ↦ rw (f, destroy_intent) (omega arith)
    | inr f ↦ rw (f, destroy_intent, cancel) (omega arith)
  ]
  live_once (u ∷ us) i h =
      omega (arith, live_once us (use_intent u i h).0 (use_intent u i h).1, use_due u i h)

  -- The destructor cancels the read of an intent that is not final.
  destroyed :
      (i : ReadIntent) (h : History) → i.finalized ≡ false → resolved (live [] i h) ≡ 1 + resolved h
  unfolding live resolved destroy_intent cancel
  destroyed i h f = rw (f, destroy_intent, cancel) (omega arith)

  -- The defaulted move leaves both objects to be destroyed: the read of an intent that is not final
  -- is cancelled twice.
  pub move_cancels_twice :
      (i : ReadIntent) (h : History)
      → i.finalized ≡ false
      → resolved (live [] (move_intent i).1 (live [] (move_intent i).0 h)) ≡ 2 + resolved h
  move_cancels_twice i h f = rw (destroyed i (live [] i h) f, destroyed i h f) (omega arith)
