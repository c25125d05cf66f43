-- ===== src/CanSignalEvent/Send/Laws.antt =====
-- Sending a value: the frame that goes out, and the timers.
use agl_can_binder.Base.{
  ℕ, ◌%◌, ◌^◌, ◌≡◌, Bool, true, false, some, [], ◌∷◌, ◌++◌, get_elem?, arith, Option-cases, inl,
  inr,
}
use agl_can_binder.CanidInfo.Types.{Strings, CanFrame, FrameData, Property, CanidInfo}
use agl_can_binder.CanidInfo.Endian.{canvalue2host}
use agl_can_binder.CanidInfo.Endian.Laws.{IsBytes}
use agl_can_binder.CanidInfo.Update.{update_property_value}
use agl_can_binder.CanidInfo.Update.Laws.{rejects, update_property_value-error}
use agl_can_binder.CanidInfo.Frame.{extract_field, property2canframe}
use agl_can_binder.CanidSearch.Tree.Laws.{IsSorted, compare-IsOrder}
use agl_can_binder.CanSignalEvent.Parse.Laws.{get_canid_dict-update_canid}
use agl_can_binder.CanidInfo.Frame.Laws.{Fits}
use agl_can_binder.CanidInfo.Frame.RoundTrip.{property2canframe_lem, property2canframe-rejected}
use agl_can_binder.CanidSearch.Dict.{Dict, PropertyRef, get_canid_dict, update_canid}
use agl_can_binder.SocketcanRaw.{Socket, socketcan_send, is_negative}
use agl_can_binder.CanSignalEvent.Send.{can_signal_send, with_value}

-- The dictionary with the update of a value and the bytes of its frame stored.
abbrev pub stored : Strings → PropertyRef → Property → ℕ → FrameData → Dict → Dict
stored strings prop p v bytes d =
    update_canid prop.canid
      (with_value prop.index p (update_property_value strings p.head v).0 bytes) d

module _ (strings : Strings) (sends : CanFrame → Bool) (prop : PropertyRef) (v : ℕ) (d : Dict)
    (sock : Socket) (info : CanidInfo) (p : Property)
    (known : get_canid_dict prop.canid d ≡ some info)
    (there : get_elem? info.property prop.index ≡ some p) (fits : Fits p.head) where
  -- For a pointer to a property of the dictionary whose field fits the frame, a value that the
  -- property refuses is not sent: the call is defined and leaves the socket as it was.
  pub can_signal_send_rejected :
      rejects p.head v ≡ true
      → (d' : Dict) × (can_signal_send strings sends prop v d sock ≡ some (d', sock))
  unfolding can_signal_send
  can_signal_send_rejected bad = (
    update_canid prop.canid (with_value prop.index p p.head info.canraw_frame.bytes) d,
    ground (arith, property2canframe-rejected strings p.head info.canraw_frame.bytes v fits bad),
  )

  -- For a pointer to a property of the dictionary whose field fits the frame, and a stored frame of
  -- bytes, an accepted value is stored and goes out, over a socket that is open and takes frames, in
  -- one frame after those sent before: the frame of the CAN-ID with the field set to the value, cut
  -- to the length of the field.
  pub can_signal_send_accepted :
      IsBytes info.canraw_frame.bytes
      → rejects p.head v ≡ false
      → is_negative sock.can_sendfd ≡ false
      → ((f : CanFrame) → sends f ≡ true)
      → (bytes : FrameData) × (can_signal_send strings sends prop v d sock
          ≡ some (
            stored strings prop p v bytes d,
            record sock { sent = sock.sent ++ (record info.canraw_frame { bytes = bytes }) ∷ [] },
          ))
        × (extract_field (canvalue2host bytes) p.head ≡ some (v % 2 ^ p.head.bit_len))
        × IsBytes bytes
  unfolding can_signal_send socketcan_send
  can_signal_send_accepted bytes ok open_fd takes =
      let old = info.canraw_frame in
      let (data', computes, valid, field, outside) =
        property2canframe_lem strings p.head old.bytes v fits ok in
      let frame : CanFrame = record old { bytes = data' } in
      (
        data',
        ground (arith, computes, update_property_value-error strings p.head v, takes frame),
        field,
        valid,
      )

-- A call that is defined leaves the CAN-ID in the dictionary.
pub get_canid_dict-can_signal_send :
    (strings : Strings) (sends : CanFrame → Bool) (prop : PropertyRef) (v : ℕ) (d d' : Dict)
    (sock sock' : Socket) (info : CanidInfo)
    → IsSorted compare-IsOrder d.canid_root
    → get_canid_dict prop.canid d ≡ some info
    → can_signal_send strings sends prop v d sock ≡ some (d', sock')
    → (info' : CanidInfo) × (get_canid_dict prop.canid d' ≡ some info')
unfolding can_signal_send
get_canid_dict-can_signal_send strings sends prop v d d' sock sock' info sorted known h =
    elim (Option-cases (get_elem? info.property prop.index)) [
      | inl gone ↦ absurd (ground (arith, known, gone))
      | inr (p, there) ↦
          elim (Option-cases (property2canframe strings p.head info.canraw_frame.bytes v)) [
            | inl undefined ↦ absurd (ground (arith, known, there, undefined))
            | inr ((head, bytes, ret), done) ↦
                let f = with_value prop.index p head bytes in
                let same : d' ≡ update_canid prop.canid f d = ground (arith, known, there, done) in
                let found = get_canid_dict-update_canid prop.canid prop.canid f d sorted in
                (f info, rw same (ground (arith, found, known)))
          ]
    ]
