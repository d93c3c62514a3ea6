-- ===== src/Util/SharedTests.antt =====
-- A history of wrappers: a theme, a cursor of it, a copy and a move.
use waylandpp.Prelude.{ℕ, ◌≡◌, refl, List, [], ◌∷◌, arith}
use waylandpp.Prelude.Assoc.{find_key, set_key, erase_key}
use waylandpp.Runtime.{ok}
use waylandpp.Util.Shared.{
  wl_cursor_theme_destroy, State, get, load, share, unshare, construct, construct_from, assign,
  copy_assign, copy_construct, move_assign, move_construct, destroy, native_of,
}
use waylandpp.Util.Shared.Counts.{destroyed}
use waylandpp.Util.Shared.Actions.{Action, wraps, refers, copies, moves, destroys, perform, Allowed}
use waylandpp.Util.Shared.Ends.{
  start, run, AllAllowed, destroy_rest, destroy_rest_lem, shared_stays,
}

abbrev history : List Action
history =
    wraps 0 50 wl_cursor_theme_destroy ∷ refers 1 60 0 ∷ copies 2 0 ∷ moves 3 2 ∷ destroys 0 ∷ []

abbrev start0 : State ℕ
start0 = start

history_allowed : AllAllowed history start0
unfolding AllAllowed Allowed perform find_key construct construct_from get load share copy_construct
    copy_assign assign unshare move_construct move_assign set_key destroy erase_key
history_allowed = (tt, ((_, refl), (((_, refl), refl), (((_, refl), refl), ((_, refl), tt)))))

abbrev left : State ℕ
left = record {
  objs =
      (3, record { pointer = 0; block = 1 })
      ∷ (2, record { pointer = 0; block = 0 })
      ∷ (1, record { pointer = 60; block = 1 })
      ∷ [];
  blocks = (1, record { object = 50; destroyer = wl_cursor_theme_destroy; uses = 2 }) ∷ [];
  next = 2;
  calls = [];
}

history_returns : run history start0 ≡ ok tt left
unfolding run perform find_key construct construct_from get load share copy_construct copy_assign
    assign unshare move_construct move_assign set_key destroy erase_key
history_returns = refl

destroy_rest_lem_example :
    (s t : State ℕ) × ((run history start0 ≡ ok tt s)
      × ((destroy_rest s ≡ ok tt t) × ((t.objs ≡ []) × (destroyed 50 t.calls ≡ 1))))
destroy_rest_lem_example = destroy_rest_lem 50 history (omega arith) history_allowed

shared_stays_example : destroyed 50 left.calls ≡ 0
unfolding find_key native_of load
shared_stays_example =
    shared_stays history left 1 (record { pointer = 60; block = 1 }) 50 history_allowed
      history_returns refl refl (omega arith) refl
