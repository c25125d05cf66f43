-- ===== src/Binding/Verbs/Laws.antt =====
-- What `get` answers, and what `set` sends.
use agl_can_binder.Base.{
  ◌%◌, ◌^◌, ◌≡◌, refl, Bool, true, false, Option, none, some, [], ◌∷◌, ◌++◌, codes, CString, arith,
  ℤ, to_u32, get_elem?,
}
use agl_can_binder.CanidInfo.Types.{Strings, CanFrame, FrameData, Property, CanidInfo}
use agl_can_binder.CanidInfo.Endian.{canvalue2host}
use agl_can_binder.CanidInfo.Endian.Laws.{IsBytes}
use agl_can_binder.CanidInfo.Update.Laws.{rejects}
use agl_can_binder.CanidInfo.Frame.{extract_field}
use agl_can_binder.CanidInfo.Frame.Laws.{Fits}
use agl_can_binder.CanidSearch.Dict.{Dict, PropertyRef, get_property_dict, get_canid_dict, deref}
use agl_can_binder.CanidSearch.Dict.WellFormed.{IsWellFormed, deref-get_property_dict}
use agl_can_binder.CanJson.Value.{Json, property2json}
use agl_can_binder.SocketcanRaw.{is_negative}
use agl_can_binder.CanSignalEvent.Send.{update_send_timer}
use agl_can_binder.CanSignalEvent.Send.Laws.{
  stored, can_signal_send_accepted, get_canid_dict-can_signal_send,
}
use agl_can_binder.Binding.Verbs.{Reply, fail, value, success, Process, get, set_value, set}

-- The answer for a property that was found.
abbrev pub answer : CString → Option Json → Reply
answer name none = fail (codes "Unsupported property")
answer name (some v) = value name v

-- With well-formed dictionaries a name that is known is answered with the value of the property of
-- that name, or a failure if it has no value.
pub get_known :
    (strings : Strings) (name : CString) (d : Dict) (r : PropertyRef)
    → IsWellFormed d
    → get_property_dict name d ≡ some r
    → (p : Property) × (p.head.name ≡ name)
      × (deref r d ≡ some p)
      × (get strings (some name) d ≡ some (answer name (property2json strings p)))
unfolding get
get_known strings name d r wf known =
    let (p, there, named) = deref-get_property_dict name d r wf known in
    (p, named, there, ground (arith, known, there))

module _ (strings : Strings) (sends : CanFrame → Bool) (strtol : CString → ℤ) (name text : CString)
    (s : Process) (prop : PropertyRef) (info : CanidInfo) (p : Property) (wf : IsWellFormed s.dict)
    (found : get_property_dict name s.dict ≡ some prop)
    (known : get_canid_dict prop.canid s.dict ≡ some info)
    (there : get_elem? info.property prop.index ≡ some p) where
  -- What the request leaves: the value and the frame are stored, the frame is sent, and the timer of
  -- the CAN-ID set.
  abbrev pub after_set : FrameData → CanidInfo → Process
  after_set bytes info' = record s {
    dict = stored strings prop p (to_u32 (strtol text)) bytes s.dict;
    socket = record s.socket {
      sent = s.socket.sent ++ (record info.canraw_frame { bytes = bytes }) ∷ [];
    };
    timers = update_send_timer info' s.timers;
  }

  pub set-after_set :
      Fits p.head
      → IsBytes info.canraw_frame.bytes
      → rejects p.head (to_u32 (strtol text)) ≡ false
      → is_negative s.socket.can_sendfd ≡ false
      → ((f : CanFrame) → sends f ≡ true)
      → (bytes : FrameData) × (info' : CanidInfo) × (set strings sends strtol
            (some name)
            (some text)
            s
          ≡ some (after_set bytes info', success))
        × (extract_field (canvalue2host bytes) p.head
            ≡ some (to_u32 (strtol text) % 2 ^ p.head.bit_len))
        × IsBytes bytes
  unfolding set set_value
  set-after_set fits whole ok open_socket takes =
      let v = to_u32 (strtol text) in
      let (bytes, sent, field, valid) =
        can_signal_send_accepted strings sends prop v s.dict s.socket info p known there fits whole
          ok open_socket takes in
      let (info', still) =
        get_canid_dict-can_signal_send strings sends prop v s.dict _ s.socket _ info
          wf.canids_in_order known sent in
      (bytes, info', ground (arith, found, sent, still), field, valid)

  -- With well-formed dictionaries, a request to set a property whose field fits the frame to a
  -- value that it accepts succeeds, and sends, over a socket that is open and takes frames, one
  -- frame with the field set to the value that `strtol` reads, cut to the length of the field. The
  -- stored frame is of bytes.
  pub set_accepted :
      Fits p.head
      → IsBytes info.canraw_frame.bytes
      → rejects p.head (to_u32 (strtol text)) ≡ false
      → is_negative s.socket.can_sendfd ≡ false
      → ((f : CanFrame) → sends f ≡ true)
      → (s' : Process) × (frame : CanFrame) × (set strings sends strtol (some name) (some text) s
          ≡ some (s', success))
        × (s'.socket.sent ≡ s.socket.sent ++ frame ∷ [])
        × (frame.can_id ≡ info.canraw_frame.can_id)
        × (extract_field (canvalue2host frame.bytes) p.head
            ≡ some (to_u32 (strtol text) % 2 ^ p.head.bit_len))
  set_accepted fits whole ok open_socket takes =
      let (bytes, info', accepted, field, valid) = set-after_set fits whole ok open_socket takes in
      (
        after_set bytes info',
        record info.canraw_frame { bytes = bytes },
        accepted,
        refl,
        refl,
        field,
      )
