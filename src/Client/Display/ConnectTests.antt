-- ===== src/Client/Display/ConnectTests.antt =====
-- The constructors of `display_t` with a library that connects by name only.
use waylandpp.Prelude.{arith, refl, ◌≡◌, none, []}
use waylandpp.Prelude.Int.{pos}
use waylandpp.Runtime.{ok, thrown, runtime_error, Env}
use waylandpp.Client.Proxy.Objects.{var, refs, get_obj}
use waylandpp.Client.Proxy.{Call, wl_display_connect_to_fd, wl_display_connect, State}
use waylandpp.Client.Proxy.Invariant.{IsBalanced}
use waylandpp.Client.Display.Connect.{display_of_fd, display_of_name, display_of_pointer}
use waylandpp.Client.Display.Connected.{connected, borrowed, with_call, display_lem}

abbrev by_name : Env Call
by_name = record {
  pointer = λ h c. elim c [ wl_display_connect n ↦ 77 | _ ↦ 0 ];
  int = λ h c. pos 0;
  errno = λ h. 0;
}

abbrev at_start : State
at_start = record { objs = []; heap = λ d. none; next = 1; calls = [] }

display_lem_example :
    (display_of_fd by_name 11 12 13 1 (var 0) (pos 4) at_start
      ≡ thrown
          (runtime_error "Could not connect to Wayland display server via file-descriptor")
          (with_call (wl_display_connect_to_fd (pos 4)) at_start))
    × ((display_of_name by_name 11 12 13 1 (var 0) "" at_start
          ≡ ok tt (connected 0 77 11 (with_call (wl_display_connect none) at_start)))
        × (display_of_pointer by_name 11 12 13 1 (var 0) 99 at_start
            ≡ ok tt (borrowed 0 99 11 at_start)))
display_lem_example = display_lem by_name 11 12 13 0 0 (pos 4) "" 99 at_start

at_start-IsBalanced : IsBalanced at_start
unfolding refs get_obj
at_start-IsBalanced = record {
  owned = λ d nz. refl;
  fits = tt;
  members = λ d pos. absurd (omega (arith, pos));
  fresh = λ d above. refl;
  small = λ d. omega arith;
  null_free = refl;
  next_pos = omega arith;
}
