-- ===== src/CanSignalEvent/Send/Total.antt =====
-- A value can be sent where the layout asks for no shift that is too long, and no layout changes.
use agl_can_binder.Base.{
  ℕ, zero, suc, ◌≡◌, refl, Bool, Option, some, List, [], ◌∷◌, All, arith, get_elem?, set,
}
use agl_can_binder.CanidInfo.Types.{
  Strings, Property, CanidInfo, CanFrame, UpdateStat, upstat_error, upstat_no_updated,
  upstat_updated,
}
use agl_can_binder.CanidInfo.Frame.{bit_shift}
use agl_can_binder.CanidInfo.Frame.Total.{property2canframe_total}
use agl_can_binder.CanidSearch.Tree.Laws.{IsSorted, compare-IsOrder}
use agl_can_binder.CanidSearch.Dict.{Dict, PropertyRef, get_canid_dict, update_canid}
use agl_can_binder.CanidSearch.Dict.Every.{Every}
use agl_can_binder.SocketcanRaw.{Socket, socketcan_send}
use agl_can_binder.CanSignalEvent.Ivi.Total.{IsDefined, PropertyDefined}
use agl_can_binder.CanSignalEvent.Parse.Added.{update_canid-Every}
use agl_can_binder.CanSignalEvent.Send.{can_signal_send, with_value}
use agl_can_binder.CanSignalEvent.Send.Sound.{can_signal_send-writes}

after_send_total :
    (sends : CanFrame → Bool) (frame : CanFrame) (d : Dict) (sock : Socket) (ret : UpdateStat)
    → (d' : Dict) × (sock' : Socket) × ((elim ret as (λ _. Option (Dict × Socket)) [
      | upstat_error ↦ some (d, sock)
      | _ ↦ some (d, (socketcan_send sends frame sock).0)
    ])
        ≡ some (d', sock'))
after_send_total sends frame d sock upstat_error = (d, sock, refl)
after_send_total sends frame d sock upstat_updated = (d, (socketcan_send sends frame sock).0, refl)
after_send_total sends frame d sock upstat_no_updated =
    (d, (socketcan_send sends frame sock).0, refl)

-- The call is defined for a pointer to a property of the dictionary.
pub can_signal_send_total :
    (strings : Strings) (sends : CanFrame → Bool) (prop : PropertyRef) (v : ℕ) (d : Dict)
    (sock : Socket) (info : CanidInfo) (p : Property)
    → get_canid_dict prop.canid d ≡ some info
    → get_elem? info.property prop.index ≡ some p
    → IsDefined p.head
    → (d' : Dict) × (sock' : Socket) × (can_signal_send strings sends prop v d sock
        ≡ some (d', sock'))
unfolding can_signal_send
can_signal_send_total strings sends prop v d sock info p known there h =
    let (q, bytes, ret, written) =
      property2canframe_total strings p.head info.canraw_frame.bytes v h.0 h.1 in
    let d' = update_canid prop.canid (with_value prop.index p q bytes) d in
    let frame = record info.canraw_frame { bytes = bytes } in
    let (d'', sock', done) = after_send_total sends frame d' sock ret in
    (d'', sock', rw (known, there, written) done)

All-set-Defined :
    (l : List Property) (i : ℕ) (p : Property) (x : ℕ)
    → get_elem? l i ≡ some p
    → All PropertyDefined l
    → All PropertyDefined (set l i (record p { head = record p.head { cur_value = x } }))
unfolding bit_shift
All-set-Defined [] i p x there ok = tt
All-set-Defined (y ∷ l) zero p x there ok =
    let same : y ≡ p = ground arith in (rw same at ok.0, ok.1)
All-set-Defined (y ∷ l) (suc i) p x there ok = (ok.0, All-set-Defined l i p x there ok.1)

-- A call that is defined changes no layout.
pub can_signal_send-Every :
    (strings : Strings) (sends : CanFrame → Bool) (prop : PropertyRef) (v : ℕ) (d d' : Dict)
    (sock sock' : Socket)
    → IsSorted compare-IsOrder d.canid_root
    → Every PropertyDefined d
    → can_signal_send strings sends prop v d sock ≡ some (d', sock')
    → Every PropertyDefined d'
can_signal_send-Every strings sends prop v d d' sock sock' sorted every h =
    let (info, p, x, bytes, known, there, dict, fd, filters) =
      can_signal_send-writes strings sends prop v d d' sock sock' h in
    let head = record p.head { cur_value = x } in
    rw dict (
      update_canid-Every PropertyDefined prop.canid (with_value prop.index p head bytes) d sorted
        every
        λ other found.
          let same : other ≡ info = ground (arith, known, found) in
          rw same
            (All-set-Defined info.property prop.index p x there (every prop.canid info known)))
