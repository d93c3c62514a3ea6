-- ===== src/Egl/Tests.antt =====
-- The construction of an EGL window that fails.
use waylandpp.Prelude.{◌≡◌, [], ◌∷◌, arith}
use waylandpp.Prelude.Int.{pos}
use waylandpp.Runtime.{runtime_error, thrown}
use waylandpp.Util.Shared.{wl_egl_window_destroy, other, State}
use waylandpp.Util.Shared.Made.{unmade}
use waylandpp.Egl.{EglCall, wl_egl_window_create, Library, egl_window}
use waylandpp.Egl.Windows.{egl_window_lem}

abbrev no_windows : Library
no_windows = record { pointer = λ calls c. 0; size = λ calls c. (pos 0, pos 0) }

abbrev at_start : State EglCall
at_start = record { objs = []; blocks = []; next = 1; calls = [] }

window_fails :
    egl_window no_windows 0 9 (pos 640) (pos 480) at_start
    ≡ thrown (runtime_error "Failed to create native wl_egl_window") (
        unmade 0 0 wl_egl_window_destroy
          (record at_start { calls = other (wl_egl_window_create 9 (pos 640) (pos 480)) ∷ [] }))
window_fails = egl_window_lem no_windows 0 9 (pos 640) (pos 480) at_start (omega arith)
