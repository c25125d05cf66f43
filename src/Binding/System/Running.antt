-- ===== src/Binding/System/Running.antt =====
-- Calls in a coherent state without undefined shifts are defined, and make no such shift.
use Prim.Native.Nat.{compare}
use agl_can_binder.Base.{
  ℕ, zero, suc, ◌≡◌, refl, Bool, inl, inr, Option, none, some, List, [], ◌∷◌, All, CString, codes,
  ℤ, arith, bit_and, ◌==◌, Option-cases, Bool-cases, to_u32, get_elem?,
}
use agl_can_binder.CanidInfo.Types.{Strings, Timeval, CanFrame, Property}
use agl_can_binder.CanidInfo.Frame.{bit_shift}
use agl_can_binder.CanidSearch.Tree.{tfind}
use agl_can_binder.CanidSearch.Dict.{PropertyRef, get_property_dict, get_canid_dict, deref}
use agl_can_binder.CanidSearch.Dict.Every.{Every}
use agl_can_binder.CanidSearch.Dict.WellFormed.{deref-get_property_dict}
use agl_can_binder.SocketcanRaw.{Received}
use agl_can_binder.CanSignalEvent.Ivi.Total.{PropertyDefined}
use agl_can_binder.CanSignalEvent.Parse.Total.{can_signal_read_total}
use agl_can_binder.CanSignalEvent.Send.{update_send_timer}
use agl_can_binder.CanSignalEvent.Send.Laws.{get_canid_dict-can_signal_send}
use agl_can_binder.CanSignalEvent.Send.Total.{can_signal_send_total, can_signal_send-Every}
use agl_can_binder.Binding.Notify.{Daemon}
use agl_can_binder.Binding.Delivery.{notifier}
use agl_can_binder.Binding.Verbs.Sends.{set-sends}
use agl_can_binder.Binding.Verbs.{Process, Reply, fail, success, set_value, set}
use agl_can_binder.Binding.System.{System, clients, epollin, on_event}
use agl_can_binder.Binding.System.Laws.{IsCoherent}

-- A coherent state in which no layout asks for a shift by 64 bits or more.
pub record IsRunning (s : System) : Type 0 where
  pub coherent : IsCoherent s
  pub layouts : Every PropertyDefined s.process.dict

All-get_elem? :
    (l : List Property) (i : ℕ) (p : Property)
    → get_elem? l i ≡ some p
    → All PropertyDefined l
    → PropertyDefined p
unfolding bit_shift
All-get_elem? [] i p h all = absurd (cc)
All-get_elem? (x ∷ l) zero p h all = let same : p ≡ x = ground arith in rw same all.0
All-get_elem? (x ∷ l) (suc i) p h all = All-get_elem? l i p h all.1

module _ (strings : Strings) where
  pub on_event_total :
      (daemon : Daemon) (revents : ℕ) (t : Timeval) (readings : List Received) (s : System)
      → IsRunning s
      → (left : List Received) × (s' : System) × (on_event strings daemon revents t readings s
          ≡ some (left, s'))
        × Every PropertyDefined s'.process.dict
  unfolding on_event
  on_event_total daemon revents t readings s r = elim (Bool-cases (bit_and revents epollin == 0)) [
    | inl idle ↦ (readings, s, ground (arith, idle), r.layouts)
    | inr ready ↦
        let (left, d', c', read, readable) =
          can_signal_read_total (notifier daemon strings) strings t readings s.process.dict
            (clients s) (record { sound = r.coherent.sound; defined = r.layouts }) in
        (
          left,
          record s {
            process = record s.process { dict = d'; events = c'.events };
            pushes = c'.pushes;
          },
          ground (arith, ready, read),
          readable.defined,
        )
  ]

  set_value_total :
      (sends : CanFrame → Bool) (strtol : CString → ℤ) (name : CString) (prop : PropertyRef) (v : ℤ)
      (s : System)
      → IsRunning s
      → get_property_dict name s.process.dict ≡ some prop
      → (p' : Process) × (reply : Reply) × (set_value strings sends strtol prop v s.process
          ≡ some (p', reply))
  unfolding set_value deref get_canid_dict
  set_value_total sends strtol name prop v s r found =
      let d = s.process.dict in
      let wf = r.coherent.sound.well_formed in
      let (p, there, named) = deref-get_property_dict name d prop wf found in
      elim (Option-cases (tfind compare prop.canid d.canid_root)) [
        | inl gone ↦ absurd (ground (arith, gone, there))
        | inr (info, known) ↦
            let at : get_elem? info.property prop.index ≡ some p = ground (arith, known, there) in
            let (d', sock', sent) =
              can_signal_send_total strings sends prop (to_u32 v) d s.process.socket info p known at
                (All-get_elem? info.property prop.index p at (r.layouts prop.canid info known)).0 in
            let (info', still) =
              get_canid_dict-can_signal_send strings sends prop (to_u32 v) d d' s.process.socket
                sock' info wf.canids_in_order known sent in
            (
              record s.process {
                dict = d';
                socket = sock';
                timers = update_send_timer info' s.process.timers;
              },
              success,
              ground (arith, sent, still),
            )
      ]

  -- Any arguments, known names or not.
  pub set_total :
      (sends : CanFrame → Bool) (strtol : CString → ℤ) (name value : Option CString) (s : System)
      → IsRunning s
      → (p' : Process) × (reply : Reply) × (set strings sends strtol name value s.process
          ≡ some (p', reply))
  unfolding set
  set_total sends strtol none value s r = (s.process, _, refl)
  set_total sends strtol (some name) none s r = (s.process, _, refl)
  set_total sends strtol (some name) (some text) s r =
      elim (Option-cases (get_property_dict name s.process.dict)) [
        | inl unknown ↦ (s.process, fail (codes "Unknown property"), ground (arith, unknown))
        | inr (prop, known) ↦
            let (p', reply, there) =
              set_value_total sends strtol name prop (strtol text) s r known in
            (p', reply, ground (arith, known, there))
      ]

  pub set-Every :
      (sends : CanFrame → Bool) (strtol : CString → ℤ) (name value : Option CString) (s : System)
      (p' : Process) (reply : Reply)
      → IsRunning s
      → set strings sends strtol name value s.process ≡ some (p', reply)
      → Every PropertyDefined p'.dict
  set-Every sends strtol name value s p' reply r h =
      elim (set-sends strings sends strtol s.process p' reply name value h) [
        | inl same ↦ rw same r.layouts
        | inr (prop, w, sock', info, (sent, timers)) ↦
            can_signal_send-Every strings sends prop w s.process.dict p'.dict s.process.socket sock'
              r.coherent.sound.well_formed.canids_in_order r.layouts sent
      ]
