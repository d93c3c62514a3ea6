-- ===== src/Log/Messages.antt =====
-- What the handler of the program is given.
use waylandpp.Prelude.{
  ℕ, ◌+◌, ◌-◌, ◌^◌, ◌<◌, ◌≡◌, ◌≢◌, refl, true, List, [], ◌∷◌, ◌++◌, length, some, ltb, arith,
  ne_false,
}
use waylandpp.Prelude.Int.{ℤ, pos, negsuc}
use waylandpp.Runtime.{runtime_error, ok, thrown}
use waylandpp.Log.{State, c_string, handle, increment, format_text, client_log, server_log}

-- No code of the text is 0.
abbrev pub HasNoZero : List ℕ → Type 0
HasNoZero [] = Unit {0}
HasNoZero (c ∷ cs) = (c ≢ 0) × HasNoZero cs

c_string_lem : (text : List ℕ) → HasNoZero text → c_string (text ++ (0 ∷ [])) ≡ some text
unfolding c_string
c_string_lem [] h = refl
c_string_lem (c ∷ cs) (nz, rest) = rw (c_string_lem cs rest, ne_false c nz) refl

handle_lem :
    (text : List ℕ) (s : State)
    → HasNoZero text
    → handle (text ++ (0 ∷ [])) s ≡ ok tt (record s { handled = (s.handler, text) ∷ s.handled })
unfolding handle
handle_lem text s h = rw (c_string_lem text h, handle) refl

module _ {Format Args : Type 0} (vsnprintf : ℕ → Format → Args → ℤ × List ℕ) (format : Format)
    (args : Args) where
  -- `vsnprintf` formats as `text`: it gives the length to a buffer of size 0, and writes the text with a 0
  -- behind it to a buffer that is large enough.
  pub record FormatsAs (text : List ℕ) : Type 0 where
    pub measures : (vsnprintf 0 format args).0 ≡ pos (length text)
    pub result : (vsnprintf (length text + 1) format args).0 ≡ pos (length text)
    pub writes : (vsnprintf (length text + 1) format args).1 ≡ text ++ (0 ∷ [])
    pub no_zero : HasNoZero text

  module _ (text : List ℕ) (f : FormatsAs text) (room : length text + 1 < 2 ^ 31) where
    format_text_lem :
        (s : State)
        → format_text vsnprintf format args (pos (length text)) (record s { copies = s.copies + 1 })
          ≡ ok tt (record s { handled = (s.handler, text) ∷ s.handled })
    unfolding format_text increment
    format_text_lem s =
        let fits : ltb (length text + 1) (2 ^ 31) ≡ true = ground (arith, room) in
        let ended : s.copies + 1 - 1 ≡ s.copies = omega arith in
        rw
          (
            fits,
            f.result,
            f.writes,
            handle_lem text (record s { copies = s.copies + 1 - 1 }) f.no_zero,
            ended,
          )
          refl

    -- If the program has set a handler and the text fits an `int`, both libraries give it the whole text, and end
    -- the copy of the arguments.
    pub log_lem :
        (s : State)
        → s.handler ≢ 0
        → let told = record s { handled = (s.handler, text) ∷ s.handled } in
          (client_log vsnprintf format args s ≡ ok tt told)
          × (server_log vsnprintf format args s ≡ ok tt told)
    unfolding client_log server_log
    log_lem s nz = (
      rw (ne_false s.handler nz, f.measures, format_text_lem s) refl,
      rw (ne_false s.handler nz, f.measures, format_text_lem s) refl,
    )

  -- If the length is not known, both handlers throw the same message, that of the client; the one of the server
  -- does not end the copy of the arguments.
  pub log_refused :
      (n : ℕ) (s : State)
      → s.handler ≢ 0
      → (vsnprintf 0 format args).0 ≡ negsuc n
      → let e = runtime_error "Error getting length of formatted wayland-client log message" in
        (client_log vsnprintf format args s ≡ thrown e s)
        × (server_log vsnprintf format args s ≡ thrown e (record s { copies = s.copies + 1 }))
  unfolding client_log server_log
  log_refused n s nz failed =
      let ended : s.copies + 1 - 1 ≡ s.copies = omega arith in
      (rw (ne_false s.handler nz, failed, ended) refl, rw (ne_false s.handler nz, failed) refl)
