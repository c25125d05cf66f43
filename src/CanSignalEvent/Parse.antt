-- ===== src/CanSignalEvent/Parse.antt =====
-- src/can_signal_event.c: `parse_candata`, `parse_frame` and `can_signal_read`. What
-- `notify_property_changed` does to the rest of the process is the parameter `notify`, a function of
-- the property as it is at the call. `none` is an undefined shift in a property's layout. The lock
-- `frameLock` is held from the lookup of the CAN-ID to the return; the model runs one call at a time.
pub mod Laws
pub mod Cases
pub mod Sound
pub mod Added
pub mod Follows
pub mod Total
pub mod Each
pub mod Drained
use agl_can_binder.Base.{
  ℕ, ◌+◌, ◌%◌, ◌^◌, true, false, Option, none, some, List, [], ◌∷◌, ltb, ◌==◌, if◌then◌else◌, ◌>>=◌,
}
use agl_can_binder.CanidInfo.Types.{Strings, Timeval, CanFrame, Property, CanidInfo, can_kind_send}
use agl_can_binder.CanidInfo.Endian.{canvalue2host}
use agl_can_binder.CanidSearch.Dict.{Dict, get_canid_dict, update_canid}
use agl_can_binder.SocketcanRaw.{Received, received, timed_out, failed, socketcan_read}
use agl_can_binder.CanSignalEvent.Ivi.{Outcome, update_iviproperty}

-- The mask CAN_SFF_MASK of <linux/can.h> is 0x7ff: the eleven low bits.
abbrev pub can_sff : ℕ → ℕ
can_sff can_id = can_id % 2 ^ 11

module _ {ℓ} {E : Type ℓ} (notify : Property → E → E) (strings : Strings) where
  -- The loop of `parse_candata`; the status of an entry is dropped.
  unfoldable pub parse_candata : ℕ → ℕ → Timeval → List Property → E → Option (List Property × E)
  parse_candata cycle can_v64 timestamp [] e = some ([], e)
  parse_candata cycle can_v64 timestamp (p ∷ rest) e = do
    o ← update_iviproperty strings cycle can_v64 p timestamp
    (rest', e') ←
        parse_candata cycle can_v64 timestamp rest (if o.notifies then notify o.property e else e)
    some (o.property ∷ rest', e')

  -- What is done with a frame of a CAN-ID of the dictionary: it is kept, and parsed unless the
  -- CAN-ID is sent by this service.
  unfoldable pub parse_known : ℕ → CanFrame → Timeval → CanidInfo → Dict → E → Option (ℕ × Dict × E)
  parse_known canid frame timestamp info d e =
      let kept = update_canid canid (λ i. record i { canraw_frame = frame }) d in
      let parsed : Option (ℕ × Dict × E) = do
        (property, e') ←
            parse_candata info.cycle (canvalue2host frame.bytes) timestamp info.property e
        some (0, update_canid canid (λ i. record i { property = property }) kept, e')
      in if info.kind == can_kind_send then some (0, kept, e) else parsed

  unfoldable pub parse_frame : CanFrame → Timeval → Dict → E → Option (ℕ × Dict × E)
  unfolding parse_known
  parse_frame frame timestamp d e =
      if ltb 8 frame.can_dlc
      then some (1, d, e)
      else elim (get_canid_dict (can_sff frame.can_id) d) [
        | none ↦ some (1, d, e)
        | some info ↦ parse_known (can_sff frame.can_id) frame timestamp info d e
      ]

  -- The loop of `can_signal_read` over what the socket will deliver; `read_max` counts the frames and
  -- `tstamp` is the variable of that name. It returns what is left in the socket with the state.
  unfoldable pub read_loop :
      ℕ → Timeval → List Received → Dict → E → Option (List Received × Dict × E)
  read_loop read_max tstamp [] d e = some ([], d, e)
  read_loop read_max tstamp (r ∷ rest) d e = elim (socketcan_read r tstamp) [
    | timed_out ↦ some (rest, d, e)
    | failed ↦ some (rest, d, e)
    | received frame t ↦ do
      (status, d', e') ← parse_frame frame t d e
      elim (ltb 5 (read_max + 1)) [
        | true ↦ some (rest, d', e')
        | false ↦ read_loop (read_max + 1) t rest d' e'
      ]
  ]

  -- `tstamp` starts with what the memory holds.
  unfoldable pub can_signal_read :
      Timeval → List Received → Dict → E → Option (List Received × Dict × E)
  unfolding read_loop
  can_signal_read tstamp readings d e = read_loop 0 tstamp readings d e
