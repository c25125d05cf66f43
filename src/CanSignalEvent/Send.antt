-- ===== src/CanSignalEvent/Send.antt =====
-- src/can_signal_event.c: `can_signal_send` and the send timers. `sends` says whether the socket takes
-- a frame. A timer is the seconds to its first expiry and its interval; 0 is disarmed.
pub mod Laws
pub mod Sound
pub mod Total
use mathlib.Core.Option
use agl_can_binder.Base.{
  ℕ, ◌≡◌, Bool, true, false, Option, none, some, List, [], ◌∷◌, set, get_elem?, ◌==◌, if◌then◌else◌,
  ◌>>=◌, ℤ, pos, negsuc,
}
use agl_can_binder.CanidInfo.Types.{
  UpdateStat, upstat_error, upstat_no_updated, upstat_updated, Strings, CanFrame, FrameData, CanBit,
  Property, CanidInfo,
}
use agl_can_binder.CanidInfo.Frame.{property2canframe}
use agl_can_binder.CanidSearch.Dict.{Dict, PropertyRef, get_canid_dict, update_canid}
use agl_can_binder.SocketcanRaw.{Socket, socketcan_send, is_negative}

-- The CAN-ID with the head of one property and the bytes of its frame written.
abbrev pub with_value : ℕ → Property → CanBit → FrameData → CanidInfo → CanidInfo
with_value index p head data' info = record info {
  property = set info.property index (record p { head = head });
  canraw_frame = record info.canraw_frame { bytes = data' };
}

module _ (strings : Strings) (sends : CanFrame → Bool) where
  -- The status decides whether the frame is sent. `none` is an undefined shift, or a pointer that is
  -- not in the dictionary.
  pub can_signal_send : PropertyRef → ℕ → Dict → Socket → Option (Dict × Socket)
  can_signal_send prop v d sock = do
    info ← get_canid_dict prop.canid d
    p ← get_elem? info.property prop.index
    (head, data', ret) ← property2canframe strings p.head info.canraw_frame.bytes v
    let info' = with_value prop.index p head data' info
    let d' = update_canid prop.canid (with_value prop.index p head data') d
    elim ret [
      | upstat_error ↦ some (d', sock)
      | _ ↦ some (d', (socketcan_send sends info'.canraw_frame sock).0)
    ]

  -- The `read` of the timer only logs its failure.
  unfoldable pub on_timer_event : CanidInfo → Socket → Socket
  on_timer_event info sock = (socketcan_send sends info.canraw_frame sock).0

-- The timers by descriptor; `none` is a descriptor that is no timer.
abbrev pub Timers : Type 0
Timers = ℤ → Option (ℕ × ℕ)

abbrev pub same_fd : ℤ → ℤ → Bool
same_fd (pos a) (pos b) = a == b
same_fd (negsuc a) (negsuc b) = a == b
same_fd _ _ = false

-- `timerfd_settime`, which fails on a descriptor that is no timer, and `timerfd_create`.
unfoldable pub settime : ℤ → ℕ × ℕ → Timers → Timers
settime fd value timers other =
    if same_fd fd other then Option.map (λ _. value) (timers other) else timers other

abbrev pub created : ℤ → Timers → Timers
created fd timers other = if same_fd fd other then some (0, 0) else timers other

unfoldable pub stop_send_timer : CanidInfo → Timers → Timers
unfolding settime
stop_send_timer info timers = settime info.timerfd (0, 0) timers

unfoldable pub update_send_timer : CanidInfo → Timers → Timers
unfolding settime
update_send_timer info timers = settime info.timerfd (1, 1) timers

-- What `timerfd_create` and `sd_event_add_io` return.
pub record TimerAnswers : Type 0 where
  pub timerfd : ℤ
  pub add_io : ℤ

-- The CAN-ID with its descriptor, the timers, and the descriptors that the event loop watches.
unfoldable pub add_send_timer :
    TimerAnswers → CanidInfo → Timers → List ℤ → CanidInfo × Timers × List ℤ
unfolding update_send_timer
add_send_timer answers info timers watched =
    let info' = record info { timerfd = answers.timerfd } in
    if is_negative answers.timerfd
    then (info', timers, watched)
    else if is_negative answers.add_io
    then (info', update_send_timer info' (created answers.timerfd timers), watched)
    else (
      info',
      update_send_timer info' (created answers.timerfd timers),
      answers.timerfd ∷ watched,
    )
