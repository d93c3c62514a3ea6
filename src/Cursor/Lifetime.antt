-- ===== src/Cursor/Lifetime.antt =====
-- Cursors and images keep their theme: they can be used when the theme's own object has ended.
use Prim.Native.String.{String}
use waylandpp.Prelude.{
  ℕ, ◌≡◌, ◌≢◌, refl, ap, ◌∙◌, ◌∷◌, ◌==◌, some, length, get_elem?, false, ne_false,
}
use waylandpp.Runtime.{ok, ◌>>◌}
use waylandpp.Util.Shared.{Wrapper, other, State, construct_from, destroy}
use waylandpp.Util.Shared.Counts.{destroyed}
use waylandpp.Util.Shared.Holds.{
  Holds, c_ptr_held, basic_c_ptr_held, not_destroyed, Holds-called, Holds-destroyed, Holds-copied,
}
use waylandpp.Cursor.{
  CursorCall, wl_cursor_theme_get_cursor, NativeImage, Library, Run, access, get_cursor, image,
  image_field,
}
use waylandpp.Cursor.Themes.{image_lem}

module _ (lib : Library) where
  -- A theme's cursor in `m`, and the n-th image of it in `r`; the objects of the theme and of the cursor end
  -- before the image is read.
  unfoldable pub read_image : (field : NativeImage → ℕ) (l m r n : ℕ) (name : String) → Run ℕ
  read_image field l m r n name = do
    get_cursor lib m l name
    destroy l
    image lib r m n
    destroy m
    image_field lib field r

  -- What libwayland-cursor keeps for the theme `x`: the cursor `c`, with as many images as it says, and its
  -- n-th image `i`.
  pub record HasImage (x c n i : ℕ) : Type 0 where
    pub cursor_full : c ≢ 0
    pub cursor_theme : lib.theme_of c ≡ x
    pub counted : length (lib.cursor_at c).images ≡ (lib.cursor_at c).image_count
    pub found : get_elem? (lib.cursor_at c).images n ≡ some i
    pub image_full : i ≢ 0
    pub image_theme : lib.theme_of i ≡ x

  get_cursor_lem :
      (x l m c : ℕ) (p : Wrapper) (name : String) (s : State CursorCall)
      → Holds x l p s
      → x ≢ 0
      → lib.pointer s.calls (wl_cursor_theme_get_cursor x name) ≡ c
      → c ≢ 0
      → get_cursor lib m l name s
        ≡ construct_from m c l
            (record s { calls = other (wl_cursor_theme_get_cursor x name) ∷ s.calls })
  unfolding get_cursor
  get_cursor_lem x l m c p name s h nz answer full =
      rw (c_ptr_held h nz, answer, ne_false c full) refl

  image_field_lem :
      (x r i d : ℕ) (field : NativeImage → ℕ) (s : State CursorCall)
      → Holds x r (record { pointer = i; block = d }) s
      → x ≢ 0
      → i ≢ 0
      → lib.theme_of i ≡ x
      → image_field lib field r s ≡ ok (field (lib.image_at i)) s
  unfolding image_field access
  image_field_lem x r i d field s h nz full owner =
      rw (basic_c_ptr_held h full, owner, not_destroyed h nz) refl

  -- If the library has a cursor of that name with an n-th image, then the image can be read when the objects of
  -- the theme and of the cursor have ended: reading it gives what the library keeps.
  pub read_image_lem :
      (x l m r n c i : ℕ) (p : Wrapper) (name : String) (field : NativeImage → ℕ)
      (s : State CursorCall)
      → Holds x l p s
      → x ≢ 0
      → lib.pointer s.calls (wl_cursor_theme_get_cursor x name) ≡ c
      → HasImage x c n i
      → (l == m) ≡ false
      → (m == l) ≡ false
      → (r == m) ≡ false
      → (m == r) ≡ false
      → (t : State CursorCall) × (read_image field l m r n name s ≡ ok (field (lib.image_at i)) t)
  unfolding read_image
  read_image_lem x l m r n c i p name field s h nz answer has lm ml rm mr =
      let q : Wrapper = record { pointer = c; block = p.block } in
      let called = Holds-called h (wl_cursor_theme_get_cursor x name) in
      let (s1, (got, (theme1, cursor1))) = Holds-copied called m c nz ml in
      let (s2, (ended, cursor2)) = Holds-destroyed cursor1 l p nz theme1.here lm in
      let (s3, (copied, (cursor3, image3))) = Holds-copied cursor2 r i nz rm in
      let (s4, (gone, image4)) = Holds-destroyed image3 m q nz cursor3.here mr in
      let alive2 = ap (λ d. destroyed d s2.calls) has.cursor_theme ∙ not_destroyed cursor2 nz in
      (
        s4,
        rw
            (
              get_cursor_lem x l m c p name s h nz answer has.cursor_full,
              got,
              ended,
              image_lem lib r m n q s2 cursor2.here (ne_false c has.cursor_full) alive2 has.counted,
              has.found,
              copied,
              gone,
            )
            (image_field_lem x r i p.block field s4 image4 nz has.image_full has.image_theme),
      )
