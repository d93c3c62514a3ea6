-- ===== src/Client/Display/Tests.antt =====
-- The theorems of the read intents at a display whose first preparation is refused.
use waylandpp.Prelude.{◌+◌, ◌≡◌, refl, false, [], ◌∷◌}
use waylandpp.Prelude.Int.{pos}
use waylandpp.Runtime.{Env}
use waylandpp.Client.Display.{
  DisplayCall, wl_display_prepare_read, ReadIntent, obtain_read_intent, move_intent,
}
use waylandpp.Client.Display.Intents.{
  cancels, reads, live, due, resolved, failed, live_once, move_cancels_twice,
}
use waylandpp.Client.Display.Obtain.{refused, refuses, TakesOne, obtain_read_intent_lem}

-- The first preparation is refused, the one after a dispatch is not; all other calls return 0.
abbrev busy : Env DisplayCall
busy = record {
  pointer = λ h c. 0;
  int = λ h c. elim c [
    | wl_display_prepare_read d ↦ elim h [ [] ↦ pos 1 | x ∷ xs ↦ pos 0 ]
    | _ ↦ pos 0
  ];
  errno = λ h. 11;
}

obtain_read_intent_lem_example : TakesOne busy 11 5 0 [] (obtain_read_intent busy 11 2 5 [])
unfolding refuses refused
obtain_read_intent_lem_example = obtain_read_intent_lem busy 11 5 2 [] refl

abbrev intent : ReadIntent
intent = record { display = 5; event_queue = 0; finalized = false }

live_once_example :
    resolved busy 11 (live busy 11 (reads ∷ cancels ∷ []) intent []) + failed busy 11 []
    ≡ due busy 11 intent
      + resolved busy 11 []
      + failed busy 11 (live busy 11 (reads ∷ cancels ∷ []) intent [])
live_once_example = live_once busy 11 (reads ∷ cancels ∷ []) intent []

move_cancels_twice_example :
    resolved busy 11
      (live busy 11 [] (move_intent intent).1 (live busy 11 [] (move_intent intent).0 []))
    ≡ 2 + resolved busy 11 []
move_cancels_twice_example = move_cancels_twice busy 11 intent [] refl
