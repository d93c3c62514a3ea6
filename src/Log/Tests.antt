-- ===== src/Log/Tests.antt =====
-- A handler and a `vsnprintf` that formats every message as two letters.
use waylandpp.Prelude.{ℕ, ◌≡◌, refl, List, [], ◌∷◌, ◌==◌, if◌then◌else◌, arith}
use waylandpp.Prelude.Int.{ℤ, pos, negsuc}
use waylandpp.Runtime.{runtime_error, ok, thrown}
use waylandpp.Log.{State, client_log, server_log}
use waylandpp.Log.Messages.{FormatsAs, log_lem, log_refused}

abbrev hi : ℕ → ℕ → ℕ → ℤ × List ℕ
hi size format args = (pos 2, if size == 0 then [] else 104 ∷ 105 ∷ 0 ∷ [])

abbrev broken : ℕ → ℕ → ℕ → ℤ × List ℕ
broken size format args = (negsuc 0, [])

abbrev listening : State
listening = record { handler = 5; handled = []; copies = 0; installed = 1 }

abbrev told : State
told = record { handler = 5; handled = (5, 104 ∷ 105 ∷ []) ∷ []; copies = 0; installed = 1 }

hi-FormatsAs : FormatsAs hi 1 2 (104 ∷ 105 ∷ [])
hi-FormatsAs = record {
  measures = refl;
  result = refl;
  writes = refl;
  no_zero = (omega arith, (omega arith, tt));
}

log_lem_example :
    (client_log hi 1 2 listening ≡ ok tt told) × (server_log hi 1 2 listening ≡ ok tt told)
log_lem_example = log_lem hi 1 2 (104 ∷ 105 ∷ []) hi-FormatsAs (omega arith) listening (omega arith)

log_refused_example :
    let e = runtime_error "Error getting length of formatted wayland-client log message" in
    (client_log broken 1 2 listening ≡ thrown e listening)
    × (server_log broken 1 2 listening ≡ thrown e (record listening { copies = 1 }))
log_refused_example = log_refused broken 1 2 0 listening (omega arith) refl
