-- ===== src/Egl/Windows.antt =====
-- The construction of an EGL window on each branch.
use waylandpp.Prelude.{ℕ, ◌≡◌, ◌<◌, refl, ◌∷◌, ◌==◌, Bool-cases, inl, inr, if◌then◌else◌}
use waylandpp.Prelude.Assoc.{eq_of}
use waylandpp.Prelude.Int.{ℤ}
use waylandpp.Runtime.{invalid_argument, runtime_error, ok, thrown}
use waylandpp.Util.Shared.{wl_egl_window_destroy, other, State}
use waylandpp.Util.Shared.Made.{made, unmade, construct-made, has_object-made, destroy-made}
use waylandpp.Egl.{EglCall, wl_egl_window_create, Library, egl_window}

module _ (lib : Library) where
  -- The construction of an EGL window without a surface throws and calls nothing. If libwayland-egl creates no
  -- window, the code throws its own message, but the destruction of the null window comes before: libwayland-egl
  -- is called with a null pointer. Otherwise the new object is the only owner of the window.
  pub egl_window_lem :
      (l surface : ℕ) (width height : ℤ) (s : State EglCall)
      → 0 < s.next
      → egl_window lib l surface width height s
        ≡ let create = wl_egl_window_create surface width height in
          let window = lib.pointer s.calls create in
          let called = record s { calls = other create ∷ s.calls } in
          if surface == 0
          then thrown (invalid_argument "proxy is NULL") s
          else if window == 0
          then thrown
              (runtime_error "Failed to create native wl_egl_window")
              (unmade l 0 wl_egl_window_destroy called)
          else ok tt (made l window wl_egl_window_destroy called)
  unfolding egl_window
  egl_window_lem l surface width height s pos =
      let create = wl_egl_window_create surface width height in
      let window = lib.pointer s.calls create in
      let called : State EglCall = record s { calls = other create ∷ s.calls } in
      let k = wl_egl_window_destroy in
      elim (Bool-cases (surface == 0)) [
        | inl null ↦ rw null refl
        | inr there ↦ elim (Bool-cases (window == 0)) [
          | inl null ↦
              rw
                (
                  there,
                  null,
                  construct-made l window k called,
                  has_object-made l window k called pos,
                  null,
                )
                (rw (destroy-made l window k called pos, eq_of window 0 null) refl)
          | inr full ↦
              rw
                (
                  there,
                  full,
                  construct-made l window k called,
                  has_object-made l window k called pos,
                  full,
                )
                refl
        ]
      ]
