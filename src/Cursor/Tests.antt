-- ===== src/Cursor/Tests.antt =====
-- The cursor themes on concrete libraries.
use waylandpp.Prelude.{ℕ, ◌≡◌, refl, some, [], ◌∷◌, arith}
use waylandpp.Prelude.Assoc.{find_key, tally}
use waylandpp.Prelude.Int.{pos}
use waylandpp.Runtime.{runtime_error, ok, thrown}
use waylandpp.Util.Shared.{wl_cursor_theme_destroy, other, Wrapper, State}
use waylandpp.Util.Shared.Blocks.{Below}
use waylandpp.Util.Shared.Counts.{Owned, destroyed}
use waylandpp.Util.Shared.Holds.{Holds}
use waylandpp.Util.Shared.Made.{unmade}
use waylandpp.Cursor.{
  CursorCall, wl_cursor_theme_load, wl_cursor_theme_get_cursor, wl_cursor_frame,
  wl_cursor_image_get_buffer, Library, cursor_theme, image,
}
use waylandpp.Cursor.Themes.{cursor_theme_lem, image_lem}
use waylandpp.Cursor.Lifetime.{HasImage, read_image, read_image_lem}

-- A library with the theme 50, whose cursor 60 has the image 70
abbrev answer : CursorCall → ℕ
answer (wl_cursor_theme_load _ _ _) = 50
answer (wl_cursor_theme_get_cursor _ _) = 60
answer (wl_cursor_frame _ _) = 0
answer (wl_cursor_image_get_buffer _) = 80

abbrev lib : Library
lib = record {
  pointer = λ calls c. answer c;
  int = λ calls c. pos 0;
  cursor_at = λ c. record { image_count = 1; name = "left_ptr"; images = 70 ∷ [] };
  image_at = λ i. record { width = 24; height = 24; hotspot_x = 4; hotspot_y = 3; delay = 0 };
  theme_of = λ c. 50;
}

-- A library that loads no theme
abbrev without_themes : Library
without_themes = record lib { pointer = λ calls c. 0 }

abbrev at_start : State CursorCall
at_start = record { objs = []; blocks = []; next = 1; calls = [] }

cursor_theme_lem_example :
    cursor_theme without_themes 0 "default" (pos 24) 9 at_start
    ≡ thrown (runtime_error "Tried to access empty object") (
        unmade 0 0 wl_cursor_theme_destroy (record at_start {
          calls = other (wl_cursor_theme_load (some "default") (pos 24) 9) ∷ [];
        }))
cursor_theme_lem_example =
    cursor_theme_lem without_themes 0 "default" (pos 24) 9 at_start (omega arith)

-- A theme in 0 and a cursor of it in 1
abbrev theme : Wrapper
theme = record { pointer = 0; block = 1 }

abbrev with_cursor : State CursorCall
with_cursor = record {
  objs = (1, record { pointer = 60; block = 1 }) ∷ (0, theme) ∷ [];
  blocks = (1, record { object = 50; destroyer = wl_cursor_theme_destroy; uses = 2 }) ∷ [];
  next = 2;
  calls = [];
}

abbrev with_theme : State CursorCall
with_theme = record {
  objs = (0, theme) ∷ [];
  blocks = (1, record { object = 50; destroyer = wl_cursor_theme_destroy; uses = 1 }) ∷ [];
  next = 2;
  calls = [];
}

image_lem_example :
    image lib 2 1 3 with_cursor ≡ thrown (runtime_error "n >= image count") with_cursor
unfolding find_key destroyed
image_lem_example =
    image_lem lib 2 1 3 (record { pointer = 60; block = 1 }) with_cursor refl refl refl refl

with_theme-Owned : Owned with_theme
unfolding tally find_key Below
with_theme-Owned = record {
  counted = λ d nz. ground arith;
  below = (omega arith, (omega arith, tt));
  next_pos = omega arith;
}

with_theme-Holds : Holds 50 0 theme with_theme
unfolding find_key tally destroyed
with_theme-Holds = record {
  owned = with_theme-Owned;
  here = refl;
  block = record { object = 50; destroyer = wl_cursor_theme_destroy; uses = 1 };
  there = refl;
  object = refl;
  shared = omega arith;
  once = refl;
}

lib-HasImage : HasImage lib 50 60 0 70
lib-HasImage = record {
  cursor_full = omega arith;
  cursor_theme = refl;
  counted = refl;
  found = refl;
  image_full = omega arith;
  image_theme = refl;
}

read_image_lem_example :
    (t : State CursorCall) × (read_image lib (λ i. i.width) 0 1 2 0 "left_ptr" with_theme ≡ ok 24 t)
read_image_lem_example =
    read_image_lem lib 50 0 1 2 0 60 70 theme "left_ptr" (λ i. i.width) with_theme with_theme-Holds
      (omega arith) refl lib-HasImage refl refl refl refl
