-- ===== src/Server/Loop/Sources.antt =====
-- What can be done with the event sources that an event loop returns (src/wayland-server.cpp,
-- include/wayland-server.hpp).
use waylandpp.Prelude.{ℕ, ◌≡◌, refl}
use waylandpp.Runtime.{runtime_error, thrown, Env}
use waylandpp.Server.Store.{ServerCall, State}
use waylandpp.Server.Loop.{new_source, source_c_ptr, timer_update, fd_update, check}

-- No source that is made from a native one can be updated or checked: each of the three methods
-- throws, and calls nothing.
pub new_source_unusable :
    (env : Env ServerCall) (p ms_delay mask : ℕ) (s : State)
    → (timer_update env (new_source p) ms_delay s
        ≡ thrown (runtime_error "event_source is null.") s)
      × ((fd_update env (new_source p) mask s ≡ thrown (runtime_error "event_source is null.") s)
          × (check (new_source p) s ≡ thrown (runtime_error "event_source is null.") s))
unfolding new_source timer_update fd_update check source_c_ptr
new_source_unusable env p ms_delay mask s = (refl, (refl, refl))
