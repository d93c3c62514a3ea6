-- ===== src/Cursor/Themes.antt =====
-- The construction of a cursor theme and the functions of cursors, on each branch.
use Prim.Native.String.{String}
use waylandpp.Prelude.{
  ℕ, suc, ◌≡◌, ◌<◌, ◌≤◌, arith, refl, zero, List, [], ◌∷◌, ◌==◌, ltb, Option, none, some,
  Bool-cases, inl, inr, false, if◌then◌else◌, get_elem?, length,
}
use waylandpp.Prelude.Assoc.{eq_of, find_key}
use waylandpp.Prelude.Int.{ℤ}
use waylandpp.Runtime.{invalid_argument, runtime_error, Outcome, ok, thrown}
use waylandpp.Util.Shared.{
  wl_cursor_theme_destroy, Wrapper, other, State, basic_c_ptr, construct_from,
}
use waylandpp.Util.Shared.Counts.{get_ok, destroyed}
use waylandpp.Util.Shared.Made.{made, unmade, construct-made, c_ptr-made, destroy-made}
use waylandpp.Cursor.{
  CursorCall, wl_cursor_theme_load, theme_name, Library, unwind, loaded, access, cursor_theme,
  image_count, native_image, image,
}

in_range : (xs : List ℕ) (n : ℕ) → n < length xs → (i : ℕ) × (get_elem? xs n ≡ some i)
in_range [] n h = absurd (omega arith)
in_range (x ∷ xs) zero h = (x, refl)
in_range (x ∷ xs) (suc n) h = in_range xs n (omega (arith, h))

out_of_range : (xs : List ℕ) (n : ℕ) → length xs ≤ n → get_elem? xs n ≡ none
out_of_range [] n h = refl
out_of_range (x ∷ xs) zero h = absurd (omega arith)
out_of_range (x ∷ xs) (suc n) h = out_of_range xs n (omega (arith, h))

module _ (lib : Library) where
  -- The construction of a theme without a `wl_shm` throws and calls nothing. If libwayland-cursor loads no
  -- theme, the exception is that of the empty object, not "wl_cursor_theme_load failed.", and before it
  -- libwayland-cursor is called to destroy a null pointer. Otherwise the new object is the only owner of the
  -- theme.
  pub cursor_theme_lem :
      (l : ℕ) (name : String) (size : ℤ) (shm : ℕ) (s : State CursorCall)
      → 0 < s.next
      → cursor_theme lib l name size shm s
        ≡ let load = wl_cursor_theme_load (theme_name name) size shm in
          let theme = lib.pointer s.calls load in
          let called = record s { calls = other load ∷ s.calls } in
          if shm == 0
          then thrown (invalid_argument "proxy is NULL") s
          else if theme == 0
          then thrown
              (runtime_error "Tried to access empty object")
              (unmade l 0 wl_cursor_theme_destroy called)
          else ok tt (made l theme wl_cursor_theme_destroy called)
  unfolding cursor_theme unwind loaded
  cursor_theme_lem l name size shm s pos =
      let load = wl_cursor_theme_load (theme_name name) size shm in
      let theme = lib.pointer s.calls load in
      let called : State CursorCall = record s { calls = other load ∷ s.calls } in
      let k = wl_cursor_theme_destroy in
      elim (Bool-cases (shm == 0)) [
        | inl null ↦ rw null refl
        | inr there ↦ elim (Bool-cases (theme == 0)) [
          | inl null ↦
              rw
                (
                  there,
                  null,
                  construct-made l theme k called,
                  c_ptr-made l theme k called pos,
                  null,
                )
                (rw (destroy-made l theme k called pos, eq_of theme 0 null) refl)
          | inr full ↦
              rw
                (
                  there,
                  full,
                  construct-made l theme k called,
                  c_ptr-made l theme k called pos,
                  full,
                )
                (rw full refl)
        ]
      ]

  -- What `image` does with an image of the list of images, if there is one
  abbrev pub image_from :
      (r l : ℕ) → Option ℕ → State CursorCall → Outcome (State CursorCall) (Unit {0})
  image_from r l none s = thrown (runtime_error "n >= image count") s
  image_from r l (some i) s = construct_from r i l s

  -- A cursor whose theme has not been destroyed, and which has as many images as it says, gives its n-th image as
  -- an object that keeps the theme as well, and throws for every n that is too large, where nothing is read.
  pub image_lem :
      (r l n : ℕ) (p : Wrapper) (s : State CursorCall)
      → find_key l s.objs ≡ some p
      → (p.pointer == 0) ≡ false
      → destroyed (lib.theme_of p.pointer) s.calls ≡ 0
      → length (lib.cursor_at p.pointer).images ≡ (lib.cursor_at p.pointer).image_count
      → image lib r l n s ≡ image_from r l (get_elem? (lib.cursor_at p.pointer).images n) s
  unfolding image image_count native_image access basic_c_ptr
  image_lem r l n p s here full alive counted =
      let c = lib.cursor_at p.pointer in
      elim (Bool-cases (ltb n c.image_count)) [
        | inl lt ↦
            let (i, there) = in_range c.images n (ground (arith, lt, counted)) in
            rw (get_ok l p s here, full, alive, lt, get_ok l p s here, full, alive, there) refl
        | inr ge ↦
            let nothing = out_of_range c.images n (ground (arith, ge, counted)) in
            rw (get_ok l p s here, full, alive, ge, nothing) refl
      ]
