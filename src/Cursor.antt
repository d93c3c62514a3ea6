-- ===== src/Cursor.antt =====
-- The cursor themes: src/wayland-cursor.cpp and include/wayland-cursor.hpp. The objects of the three
-- classes are wrappers of Util/Shared; a name of an object is a number.
pub mod Themes
pub mod Lifetime
mod Tests
use Prim.Native.String.{String, len}
use waylandpp.Prelude.{
  ℕ, ◌≡◌, Bool, true, false, Option, none, some, List, ◌∷◌, ◌==◌, ltb, if◌then◌else◌, get_elem?,
}
use waylandpp.Prelude.Int.{ℤ}
use waylandpp.Runtime.{
  invalid_argument, runtime_error, Outcome, ok, thrown, fault, out_of_fuel, pure, throw, undefined,
  ◌>>=◌, ◌>>◌,
}
use waylandpp.Client.Proxy.Objects.{WrapperType, foreign}
use waylandpp.Util.Shared.{
  wl_cursor_theme_destroy, Call, other, State, Exec, get, call, construct, construct_from, destroy,
  c_ptr, basic_c_ptr,
}
use waylandpp.Util.Shared.Counts.{destroyed}

-- The functions of libwayland-cursor and their arguments; a theme without a name is loaded as the default one.
pub data CursorCall : Type 0 where
  wl_cursor_theme_load : Option String → ℤ → ℕ → CursorCall
  wl_cursor_theme_get_cursor : ℕ → String → CursorCall
  wl_cursor_frame : ℕ → ℕ → CursorCall
  wl_cursor_image_get_buffer : ℕ → CursorCall

-- `wl_cursor` and `wl_cursor_image`
pub record NativeCursor : Type 0 where
  pub image_count : ℕ
  pub name : String
  pub images : List ℕ

pub record NativeImage : Type 0 where
  pub width : ℕ
  pub height : ℕ
  pub hotspot_x : ℕ
  pub hotspot_y : ℕ
  pub delay : ℕ

-- What the library answers after the calls so far, and what it keeps at an address. A theme owns its cursors
-- and images: `theme_of` is the theme, with which they go.
pub record Library : Type 0 where
  pub pointer : List (Call CursorCall) → CursorCall → ℕ
  pub int : List (Call CursorCall) → CursorCall → ℤ
  pub cursor_at : ℕ → NativeCursor
  pub image_at : ℕ → NativeImage
  pub theme_of : ℕ → ℕ

abbrev pub Run : Type 0 → Type 0
Run = Exec CursorCall

-- `name.empty() ? nullptr : name.c_str()`
abbrev pub theme_name : String → Option String
theme_name n = if len n == 0 then none else some n

-- `proxy_t::c_ptr` of the proxy with the pointer `p`
abbrev pub proxy_c_ptr : ℕ → Run ℕ
proxy_c_ptr p = if p == 0 then throw (invalid_argument "proxy is NULL") else pure p

-- The body of the constructor of `cursor_theme_t`
unfoldable pub loaded : ℕ → Run (Unit {0})
loaded l = do
  c ← c_ptr l
  if c == 0 then throw (runtime_error "wl_cursor_theme_load failed.") else pure tt

-- An exception in the body of a constructor ends the base of the object.
unfoldable pub unwind :
    {A : Type 0} → ℕ → Outcome (State CursorCall) A → Outcome (State CursorCall) A
unwind l (ok a s) = ok a s
unwind l (thrown e s) = (do destroy l; throw e) s
unwind l fault = fault
unwind l out_of_fuel = out_of_fuel

module _ (lib : Library) where
  abbrev pub ask : CursorCall → Run ℕ
  ask c s = ok (lib.pointer s.calls c) (record s { calls = other c ∷ s.calls })

  -- What a theme owns is gone when the theme has been destroyed; its address must not be used any more.
  unfoldable pub access : ℕ → Run (Unit {0})
  access p s = if destroyed (lib.theme_of p) s.calls == 0 then ok tt s else fault

  -- `cursor_theme_t::cursor_theme_t`; `shm` is the pointer of the proxy.
  unfoldable pub cursor_theme : ℕ → String → ℤ → ℕ → Run (Unit {0})
  unfolding unwind loaded
  cursor_theme l name size shm = do
    p ← proxy_c_ptr shm
    theme ← ask (wl_cursor_theme_load (theme_name name) size p)
    construct l theme wl_cursor_theme_destroy
    λ s. unwind l (loaded l s)

  -- `cursor_theme_t::get_cursor`, with its result in `r`
  unfoldable pub get_cursor : (r l : ℕ) → String → Run (Unit {0})
  get_cursor r l name = do
    theme ← c_ptr l
    cursor ← ask (wl_cursor_theme_get_cursor theme name)
    if cursor == 0 then throw (runtime_error "wl_cursor_theme_cursor failed.") else pure tt
    construct_from r cursor l

  -- `cursor_t`
  unfoldable pub image_count : ℕ → Run ℕ
  unfolding access
  image_count l = do c ← basic_c_ptr l; access c; pure (lib.cursor_at c).image_count

  unfoldable pub name : ℕ → Run String
  unfolding access
  name l = do c ← basic_c_ptr l; access c; pure (lib.cursor_at c).name

  -- `images[n]`
  unfoldable pub native_image : ℕ → ℕ → Run ℕ
  unfolding access
  native_image c n = do
    access c
    elim (get_elem? (lib.cursor_at c).images n) [ none ↦ undefined | some i ↦ pure i ]

  -- `cursor_t::image`, with its result in `r`
  unfoldable pub image : (r l n : ℕ) → Run (Unit {0})
  unfolding image_count native_image
  image r l n = do
    count ← image_count l
    if ltb n count then pure tt else throw (runtime_error "n >= image count")
    c ← basic_c_ptr l
    i ← native_image c n
    construct_from r i l

  unfoldable pub frame : ℕ → ℕ → Run ℤ
  unfolding access
  frame l time = do
    c ← basic_c_ptr l
    access c
    λ s.
        ok (lib.int s.calls (wl_cursor_frame c time))
          (record s { calls = other (wl_cursor_frame c time) ∷ s.calls })

  -- `cursor_image_t`: `width`, `height`, `hotspot_x`, `hotspot_y` and `delay`
  unfoldable pub image_field : (NativeImage → ℕ) → ℕ → Run ℕ
  unfolding access
  image_field field l = do i ← basic_c_ptr l; access i; pure (field (lib.image_at i))

  abbrev pub width : ℕ → Run ℕ
  width = image_field (λ i. i.width)

  abbrev pub height : ℕ → Run ℕ
  height = image_field (λ i. i.height)

  abbrev pub hotspot_x : ℕ → Run ℕ
  hotspot_x = image_field (λ i. i.hotspot_x)

  abbrev pub hotspot_y : ℕ → Run ℕ
  hotspot_y = image_field (λ i. i.hotspot_y)

  abbrev pub delay : ℕ → Run ℕ
  delay = image_field (λ i. i.delay)

  -- `cursor_image_t::get_buffer`: the arguments of the constructor of `buffer_t`
  unfoldable pub get_buffer : ℕ → Run (ℕ × WrapperType)
  unfolding access
  get_buffer l = do
    i ← basic_c_ptr l
    access i
    buffer ← ask (wl_cursor_image_get_buffer i)
    pure (buffer, foreign)
