-- ===== src/Egl.antt =====
-- The windows of EGL: src/wayland-egl.cpp. The objects are wrappers of Util/Shared.
pub mod Windows
mod Tests
use waylandpp.Prelude.{ℕ, ◌≡◌, List, ◌∷◌, ◌==◌, Bool, if◌then◌else◌}
use waylandpp.Prelude.Int.{ℤ}
use waylandpp.Runtime.{
  invalid_argument, runtime_error, Outcome, ok, thrown, fault, out_of_fuel, pure, throw, ◌>>=◌,
  ◌>>◌,
}
use waylandpp.Util.Shared.{
  wl_egl_window_destroy, Call, other, State, Exec, call, construct, destroy, c_ptr, has_object,
}

-- The functions of libwayland-egl and their arguments
pub data EglCall : Type 0 where
  wl_egl_window_create : ℕ → ℤ → ℤ → EglCall
  wl_egl_window_resize : ℕ → ℤ → ℤ → ℤ → ℤ → EglCall
  wl_egl_window_get_attached_size : ℕ → EglCall

-- What the library answers after the calls so far
pub record Library : Type 0 where
  pub pointer : List (Call EglCall) → EglCall → ℕ
  pub size : List (Call EglCall) → EglCall → ℤ × ℤ

-- `proxy_t::c_ptr` of the proxy with the pointer `p`
abbrev pub proxy_c_ptr : ℕ → Exec EglCall ℕ
proxy_c_ptr p = if p == 0 then throw (invalid_argument "proxy is NULL") else pure p

module _ (lib : Library) where
  -- `egl_window_t::egl_window_t`; an exception in its body ends the base.
  unfoldable pub egl_window : ℕ → ℕ → ℤ → ℤ → Exec EglCall (Unit {0})
  egl_window l surface width height = do
    p ← proxy_c_ptr surface
    window ← λ s.
        let c = wl_egl_window_create p width height in
        ok (lib.pointer s.calls c) (record s { calls = other c ∷ s.calls })
    construct l window wl_egl_window_destroy
    there ← has_object l
    if there
        then pure tt
        else (do destroy l; throw (runtime_error "Failed to create native wl_egl_window"))

  unfoldable pub resize : ℕ → ℤ → ℤ → ℤ → ℤ → Exec EglCall (Unit {0})
  resize l width height dx dy = do
    p ← c_ptr l
    call (other (wl_egl_window_resize p width height dx dy))

  -- `egl_window_t::get_attached_size`: what it writes to the width and the height
  unfoldable pub get_attached_size : ℕ → Exec EglCall (ℤ × ℤ)
  get_attached_size l = do
    p ← c_ptr l
    λ s.
        let c = wl_egl_window_get_attached_size p in
        ok (lib.size s.calls c) (record s { calls = other c ∷ s.calls })
