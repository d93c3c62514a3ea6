-- ===== src/Log.antt =====
-- The log handlers of src/wayland-client.cpp and src/wayland-server.cpp: messages of the libraries, formatted
-- for a function of the program. A text is a list of codes.
pub mod Messages
mod Tests
use waylandpp.Prelude.{
  ℕ, zero, suc, ◌+◌, ◌-◌, ◌^◌, ◌==◌, ltb, if◌then◌else◌, Option, none, some, List, [], ◌∷◌,
}
use waylandpp.Prelude.Int.{ℤ, pos, negsuc, is_negative}
use waylandpp.Runtime.{runtime_error, ok, fault, M, pure, throw, undefined, ◌>>=◌, ◌>>◌}

-- `handler` is the address of `g_log_handler`'s function, 0 for none. `handled` are its calls with what they were
-- given, the last one first, `copies` the copies by `va_copy` for which `va_end` was not called, and `installed`
-- the calls of `wl_log_set_handler_client` or `wl_log_set_handler_server`.
pub record State : Type 0 where
  pub handler : ℕ
  pub handled : List (ℕ × List ℕ)
  pub copies : ℕ
  pub installed : ℕ

abbrev pub Run : Type 0 → Type 0
Run = M State

abbrev pub va_copy : Run (Unit {0})
va_copy s = ok tt (record s { copies = s.copies + 1 })

abbrev pub va_end : Run (Unit {0})
va_end s = ok tt (record s { copies = s.copies - 1 })

abbrev pub add_code : ℕ → Option (List ℕ) → Option (List ℕ)
add_code c none = none
add_code c (some t) = some (c ∷ t)

-- The text of a buffer: up to the first 0; a buffer without one is read past its end.
unfoldable pub c_string : List ℕ → Option (List ℕ)
c_string [] = none
c_string (c ∷ cs) = let rest = c_string cs in if c == 0 then some [] else add_code c rest

-- `g_log_handler(buf.data())`
unfoldable pub handle : List ℕ → Run (Unit {0})
handle buf s = elim (c_string buf) [
  | none ↦ fault
  | some text ↦ ok tt (record s { handled = (s.handler, text) ∷ s.handled })
]

-- `set_log_handler` of both libraries
unfoldable pub set_log_handler : ℕ → Run (Unit {0})
set_log_handler handler s = ok tt (record s { handler = handler; installed = s.installed + 1 })

abbrev pub magnitude : ℤ → ℕ
magnitude (pos n) = n
magnitude (negsuc n) = n + 1

-- `length++` on an `int`
unfoldable pub increment : ℤ → Run ℕ
increment length =
    if ltb (magnitude length + 1) (2 ^ 31) then pure (magnitude length + 1) else undefined

abbrev pub length_failed : Run (Unit {0})
length_failed = throw (runtime_error "Error getting length of formatted wayland-client log message")

abbrev pub text_failed : Run (Unit {0})
text_failed = throw (runtime_error "Error formatting wayland-client log message")

-- `vsnprintf` for a buffer of a size: its result, and the buffer afterwards
module _ {Format Args : Type 0} (vsnprintf : ℕ → Format → Args → ℤ × List ℕ) where
  -- Both handlers after the length is known
  unfoldable pub format_text : Format → Args → ℤ → Run (Unit {0})
  unfolding increment handle
  format_text format args r = do
    length ← increment r
    let out = vsnprintf length format args
    if is_negative out.0 then text_failed else pure tt
    va_end
    handle out.1

  -- `_c_log_handler` of src/wayland-client.cpp
  unfoldable pub client_log : Format → Args → Run (Unit {0})
  unfolding format_text
  client_log format args s =
      if s.handler == 0
      then ok tt s
      else (do
        va_copy
        let r = (vsnprintf 0 format args).0
        if is_negative r then (do va_end; length_failed) else format_text format args r)
          s

  -- `_c_log_handler` of src/wayland-server.cpp
  unfoldable pub server_log : Format → Args → Run (Unit {0})
  unfolding format_text
  server_log format args s =
      if s.handler == 0
      then ok tt s
      else (do
        va_copy
        let r = (vsnprintf 0 format args).0
        if is_negative r then length_failed else format_text format args r)
          s
