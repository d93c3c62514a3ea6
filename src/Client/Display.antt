-- ===== src/Client/Display.antt =====
-- `read_intent` and the event loop of `display_t` (src/wayland-client.cpp), with
-- `check_return_value` of src/wayland-util.cpp.
--
-- `display_t` enters by its pointer: 0 for an object without a display.
pub mod Intents
pub mod Obtain
pub mod Connect
pub mod Connected
mod Tests
mod ConnectTests
use Prim.Native.String.{String}
use waylandpp.Prelude.{ℕ, zero, suc, ◌≡◌, Bool, true, false, List, [], ◌∷◌, ◌==◌, if◌then◌else◌}
use waylandpp.Prelude.Int.{ℤ, is_negative, is_zero}
use waylandpp.Runtime.{
  invalid_argument, runtime_error, logic_error, system_error, M, ok, out_of_fuel, pure, throw,
  ◌>>=◌, ◌>>◌, Env,
}

-- The functions of libwayland-client that the code calls
pub data DisplayCall : Type 0 where
  wl_display_cancel_read wl_display_read_events wl_display_prepare_read wl_display_roundtrip :
      ℕ → DisplayCall
  wl_display_dispatch wl_display_dispatch_pending wl_display_flush : ℕ → DisplayCall
  wl_display_get_fd wl_display_get_error wl_display_create_queue : ℕ → DisplayCall
  wl_display_prepare_read_queue wl_display_roundtrip_queue : ℕ → ℕ → DisplayCall
  wl_display_dispatch_queue wl_display_dispatch_queue_pending : ℕ → ℕ → DisplayCall

-- The calls so far, the last one first
abbrev pub History : Type 0
History = List DisplayCall

-- `read_intent`
pub record ReadIntent : Type 0 where
  pub display : ℕ
  pub event_queue : ℕ
  pub finalized : Bool

-- `display_t::operator wl_display*`
abbrev pub wl_display : ℕ → M History ℕ
wl_display d = if d == 0 then throw (invalid_argument "proxy is NULL") else pure d

-- The constructor of `read_intent`
unfoldable pub new_intent : ℕ → ℕ → M History ReadIntent
new_intent d q =
    if d == 0
    then throw (runtime_error "No display.")
    else pure (record { display = d; event_queue = q; finalized = false })

-- `read_intent::is_finalized`
abbrev pub is_finalized : ReadIntent → Bool
is_finalized i = i.finalized

-- The defaulted move constructor: the new object and what is left of the old one
abbrev pub move_intent : ReadIntent → ReadIntent × ReadIntent
move_intent i = (i, i)

-- `eagain` is the value of EAGAIN.
module _ (env : Env DisplayCall) (eagain : ℕ) where
  abbrev pub ask_int : DisplayCall → M History ℤ
  ask_int c h = ok (env.int h c) (c ∷ h)

  abbrev pub errno : M History ℕ
  errno h = ok (env.errno h) h

  -- `read_intent::cancel`; the result is the object afterwards.
  unfoldable pub cancel : ReadIntent → M History ReadIntent
  cancel i h =
      if i.finalized
      then throw (logic_error "Trying to cancel read_intent that was already finalized") h
      else ok (record i { finalized = true }) (wl_display_cancel_read i.display ∷ h)

  -- `read_intent::read`
  unfoldable pub read : ReadIntent → M History ReadIntent
  read i = do
    if i.finalized
        then throw (logic_error "Trying to read with read_intent that was already finalized")
        else (do
          r ← ask_int (wl_display_read_events i.display)
          if is_zero r
              then pure (record i { finalized = true })
              else (do n ← errno; throw (system_error n "wl_display_read_events")))

  -- `read_intent::~read_intent`; what `cancel` throws is swallowed.
  unfoldable pub destroy_intent : ReadIntent → History → History
  destroy_intent i h = if i.finalized then h else elim (cancel i h) [ ok j u ↦ u | _ ↦ h ]

  -- `check_return_value`
  unfoldable pub check_return_value : String → ℤ → M History ℤ
  check_return_value name r =
      if is_negative r then (do n ← errno; throw (system_error n name)) else pure r

  abbrev pub checked : String → (ℕ → DisplayCall) → ℕ → M History ℤ
  checked name c d = do p ← wl_display d; r ← ask_int (c p); check_return_value name r

  unfoldable pub roundtrip : ℕ → M History ℤ
  roundtrip = checked "wl_display_roundtrip" wl_display_roundtrip

  unfoldable pub dispatch : ℕ → M History ℤ
  dispatch = checked "wl_display_dispatch" wl_display_dispatch

  unfoldable pub dispatch_pending : ℕ → M History ℤ
  dispatch_pending = checked "wl_display_dispatch_pending" wl_display_dispatch_pending

  unfoldable pub roundtrip_queue : ℕ → ℕ → M History ℤ
  roundtrip_queue d q = checked "wl_display_roundtrip_queue" (λ p. wl_display_roundtrip_queue p q) d

  unfoldable pub dispatch_queue : ℕ → ℕ → M History ℤ
  dispatch_queue d q = checked "wl_display_dispatch_queue" (λ p. wl_display_dispatch_queue p q) d

  unfoldable pub dispatch_queue_pending : ℕ → ℕ → M History ℤ
  dispatch_queue_pending d q =
      checked "wl_display_dispatch_queue_pending" (λ p. wl_display_dispatch_queue_pending p q) d

  unfoldable pub get_fd : ℕ → M History ℤ
  get_fd d = do p ← wl_display d; ask_int (wl_display_get_fd p)

  unfoldable pub get_error : ℕ → M History ℤ
  get_error d = do p ← wl_display d; ask_int (wl_display_get_error p)

  unfoldable pub create_queue : ℕ → M History ℕ
  create_queue d = do
    p ← wl_display d
    q ← (λ h. ok (env.pointer h (wl_display_create_queue p)) (wl_display_create_queue p ∷ h))
    if q == 0 then throw (runtime_error "wl_display_create_queue") else pure q

  -- `display_t::flush`: the bytes written, and whether all were
  unfoldable pub flush : ℕ → M History (ℤ × Bool)
  flush d = do
    p ← wl_display d
    r ← ask_int (wl_display_flush p)
    n ← errno
    if is_negative r
        then (if n == eagain then pure (r, false) else throw (system_error n "wl_display_flush"))
        else pure (r, true)

  -- The loop of both functions that obtain an intent, on fuel
  unfoldable pub obtain :
      (ℕ → DisplayCall) → M History ℤ → String → ℕ → ℕ → ℕ → M History ReadIntent
  obtain prepare pending name zero d q = λ h. out_of_fuel
  obtain prepare pending name (suc k) d q = do
    let again = obtain prepare pending name k d q
    p ← wl_display d
    r ← ask_int (prepare p)
    n ← errno
    if is_zero r
        then new_intent p q
        else if n == eagain
        then (do _ ← pending; again)
        else throw (system_error n name)

  unfoldable pub obtain_read_intent : ℕ → ℕ → M History ReadIntent
  obtain_read_intent k d =
      obtain wl_display_prepare_read (dispatch_pending d) "wl_display_prepare_read" k d 0

  unfoldable pub obtain_queue_read_intent : ℕ → ℕ → ℕ → M History ReadIntent
  obtain_queue_read_intent k d q =
      obtain (λ p. wl_display_prepare_read_queue p q) (dispatch_queue_pending d q)
        "wl_display_prepare_read_queue" k d q
