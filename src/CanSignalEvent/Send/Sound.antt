-- ===== src/CanSignalEvent/Send/Sound.antt =====
-- The dictionaries stay sound when a value is sent.
use agl_can_binder.Base.{
  Bool, ℕ, zero, suc, ◌≡◌, refl, inl, inr, Option, some, List, [], ◌∷◌, All, arith, get_elem?, set,
  Option-cases,
}
use agl_can_binder.CanidInfo.Types.{
  Strings, CanBit, Property, CanidInfo, CanFrame, FrameData, UpdateStat, upstat_error,
}
use agl_can_binder.CanidInfo.Frame.{property2canframe}
use agl_can_binder.CanidInfo.Frame.Names.{property2canframe-layout}
use agl_can_binder.CanidSearch.Dict.{Dict, PropertyRef, get_canid_dict, update_canid}
use agl_can_binder.CanidSearch.Dict.Refs.{HasName}
use agl_can_binder.SocketcanRaw.{Socket, socketcan_send}
use agl_can_binder.CanSignalEvent.Ivi.Shape.{IsWellFormed}
use agl_can_binder.CanSignalEvent.Parse.Sound.{IsSound, Names, update_canid-IsSound}
use agl_can_binder.CanSignalEvent.Send.{can_signal_send, with_value}

-- A new head of the same name.
Names-set :
    (l : List Property) (i : ℕ) (p : Property) (head : CanBit)
    → get_elem? l i ≡ some p
    → head.name ≡ p.head.name
    → Names l (set l i (record p { head = head }))
unfolding HasName
Names-set [] i p head there same j n h = h
Names-set (x ∷ l) zero p head there same zero n (q, at, named) =
    (record p { head = head }, refl, ground arith)
Names-set (x ∷ l) zero p head there same (suc j) n h = h
Names-set (x ∷ l) (suc i) p head there same zero n h = h
Names-set (x ∷ l) (suc i) p head there same (suc j) n h = Names-set l i p head there same j n h

All-set :
    (l : List Property) (i : ℕ) (p : Property) (head : CanBit)
    → get_elem? l i ≡ some p
    → All IsWellFormed l
    → All IsWellFormed (set l i (record p { head = head }))
All-set [] i p head there ok = tt
All-set (x ∷ l) zero p head there ok = let same : x ≡ p = ground arith in (rw same at ok.0, ok.1)
All-set (x ∷ l) (suc i) p head there ok = (ok.0, All-set l i p head there ok.1)

with_value-IsSound :
    (prop : PropertyRef) (p : Property) (head : CanBit) (bytes : FrameData) (d : Dict)
    (info : CanidInfo)
    → IsSound d
    → get_canid_dict prop.canid d ≡ some info
    → get_elem? info.property prop.index ≡ some p
    → head.name ≡ p.head.name
    → IsSound (update_canid prop.canid (with_value prop.index p head bytes) d)
with_value-IsSound prop p head bytes d info s known there named =
    update_canid-IsSound prop.canid (with_value prop.index p head bytes) d s λ other found.
      let same : other ≡ info = ground (arith, known, found) in
      rw same (
        Names-set info.property prop.index p head there named,
        All-set info.property prop.index p head there (s.applied prop.canid info known),
      )

-- A send changes neither the descriptor nor the filters.
pub socketcan_send-kept :
    (sends : CanFrame → Bool) (frame : CanFrame) (sock : Socket)
    → let sock' = (socketcan_send sends frame sock).0 in
      (sock'.canfd ≡ sock.canfd) × (sock'.filters ≡ sock.filters)
unfolding socketcan_send
socketcan_send-kept sends frame sock = ground arith

after_send :
    (sends : CanFrame → Bool) (frame : CanFrame) (d d' : Dict) (sock sock' : Socket)
    (ret : UpdateStat)
    → (elim ret as (λ _. Option (Dict × Socket)) [
      | upstat_error ↦ some (d, sock)
      | _ ↦ some (d, (socketcan_send sends frame sock).0)
    ])
      ≡ some (d', sock')
    → (d' ≡ d) × (sock'.canfd ≡ sock.canfd) × (sock'.filters ≡ sock.filters)
after_send sends frame d d' sock sock' upstat_error h = ground arith
after_send sends frame d d' sock sock' _ h = ground (arith, socketcan_send-kept sends frame sock)

-- The names are those from before, and the descriptors and filters of the socket too.
abbrev pub Sends : Dict → Dict → Socket → Socket → Type 0
Sends d d' sock sock' =
    IsSound d'
    × (d'.property_root ≡ d.property_root)
    × (sock'.canfd ≡ sock.canfd)
    × (sock'.filters ≡ sock.filters)

-- A call that is defined writes one property, whose layout and name stay.
pub can_signal_send-writes :
    (strings : Strings) (sends : CanFrame → Bool) (prop : PropertyRef) (v : ℕ) (d d' : Dict)
    (sock sock' : Socket)
    → can_signal_send strings sends prop v d sock ≡ some (d', sock')
    → (info : CanidInfo) × (p : Property) × (x : ℕ) × (bytes : FrameData) × (get_canid_dict
          prop.canid d
        ≡ some info)
      × (get_elem? info.property prop.index ≡ some p)
      × (d'
          ≡ update_canid prop.canid
              (with_value prop.index p (record p.head { cur_value = x }) bytes)
              d)
      × (sock'.canfd ≡ sock.canfd)
      × (sock'.filters ≡ sock.filters)
unfolding can_signal_send
can_signal_send-writes strings sends prop v d d' sock sock' h =
    elim (Option-cases (get_canid_dict prop.canid d)) [
      | inl gone ↦ absurd (ground (arith, gone))
      | inr (info, known) ↦ elim (Option-cases (get_elem? info.property prop.index)) [
        | inl gone ↦ absurd (ground (arith, known, gone))
        | inr (p, there) ↦
            elim (Option-cases (property2canframe strings p.head info.canraw_frame.bytes v)) [
              | inl undefined ↦ absurd (ground (arith, known, there, undefined))
              | inr ((head, bytes, ret), written) ↦
                  let layout =
                    property2canframe-layout strings p.head head info.canraw_frame.bytes bytes v ret
                      written in
                  let d1 = update_canid prop.canid (with_value prop.index p head bytes) d in
                  let frame = record info.canraw_frame { bytes = bytes } in
                  let (dict, fd, filters) =
                    after_send sends frame d1 d' sock sock' ret
                      (ground (arith, known, there, written)) in
                  (info, p, head.cur_value, bytes, known, there, rw (← layout) dict, fd, filters)
            ]
      ]
    ]

-- A call that is defined keeps sound dictionaries sound and the names as they are, and leaves the
-- descriptor and the filters of the socket.
pub can_signal_send-Sends :
    (strings : Strings) (sends : CanFrame → Bool) (prop : PropertyRef) (v : ℕ) (d d' : Dict)
    (sock sock' : Socket)
    → IsSound d
    → can_signal_send strings sends prop v d sock ≡ some (d', sock')
    → Sends d d' sock sock'
unfolding update_canid
can_signal_send-Sends strings sends prop v d d' sock sock' s h =
    let (info, p, x, bytes, known, there, dict, fd, filters) =
      can_signal_send-writes strings sends prop v d d' sock sock' h in
    let head = record p.head { cur_value = x } in
    rw dict (with_value-IsSound prop p head bytes d info s known there refl, refl, fd, filters)
