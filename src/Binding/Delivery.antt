-- ===== src/Binding/Delivery.antt =====
-- From a frame to the clients: `parse_frame` with `notify_property_changed` as its notification.
pub mod Many
use agl_can_binder.Base.{
  ℕ, ◌≤◌, ◌≡◌, ◌≢◌, ap, true, false, some, [], ◌∷◌, ◌++◌, if◌then◌else◌, pos, arith,
}
use agl_can_binder.CanidInfo.Types.{
  Strings, Timeval, CanFrame, CanBit, Property, CanidInfo, can_kind_send,
}
use agl_can_binder.CanidInfo.Endian.{canvalue2host}
use agl_can_binder.CanidInfo.Frame.Laws.{Fits}
use agl_can_binder.CanidInfo.Update.{update_property_value}
use agl_can_binder.CanidInfo.Update.Laws.{rejects, update_property_value-layout}
use agl_can_binder.CanidSearch.Tree.Laws.{IsSorted, compare-IsOrder}
use agl_can_binder.CanidSearch.Dict.{Dict, get_canid_dict}
use agl_can_binder.CanJson.Value.{property2json}
use agl_can_binder.BindEvent.{BindEvent, get_event}
use agl_can_binder.CanSignalEvent.Ivi.{Outcome}
use agl_can_binder.CanSignalEvent.Ivi.Single.{thinned, field_of, update_iviproperty_single}
use agl_can_binder.CanSignalEvent.Parse.{can_sff, parse_candata, parse_frame}
use agl_can_binder.CanSignalEvent.Parse.Laws.{parse_frame_received}
use agl_can_binder.Binding.Notify.{Daemon, Clients, notify_property_changed}
use agl_can_binder.Binding.Notify.Laws.{notify_subscribed}

-- The notification that the binding gives to the parser, which drops the status.
unfoldable pub notifier : Daemon → Strings → Property → Clients → Clients
notifier daemon strings p c = (notify_property_changed daemon strings p c).0

-- The outcome of an accepted field for a property with one entry.
abbrev pub outcome : Strings → ℕ → Timeval → Property → ℕ → Outcome
outcome strings cycle t p v =
    thinned cycle t p (update_property_value strings p.head (field_of v p.head))

outcome-name :
    (strings : Strings) (cycle : ℕ) (t : Timeval) (p : Property) (v : ℕ)
    → (outcome strings cycle t p v).property.head.name ≡ p.head.name
outcome-name strings cycle t p v =
    let same =
      ap (λ (q : CanBit). q.name)
        (update_property_value-layout strings p.head (field_of v p.head)) in
    ground (arith, same)

-- The clients after an outcome: told of the new property by the event b, or left alone.
abbrev pub told : Strings → BindEvent → Clients → Outcome → Clients
told strings b c o =
    if o.notifies
    then record c { pushes = c.pushes ++ (b.event, property2json strings o.property) ∷ [] }
    else c

module _ (daemon : Daemon) (strings : Strings) (p : Property) (c : Clients) (b : BindEvent)
    (there : get_event p.head.name c.events ≡ some b) (valid : daemon.is_valid b.event ≡ true)
    (some_result : daemon.receivers b.event ≢ pos 0) where
  notifier_pushes :
      (q : Property)
      → q.head.name ≡ p.head.name
      → notifier daemon strings q c
        ≡ record c { pushes = c.pushes ++ (b.event, property2json strings q) ∷ [] }
  unfolding notifier
  notifier_pushes q named =
      ap (λ r. r.0) (notify_subscribed daemon strings q c b (rw named there) valid some_result)

  parse_candata_tells :
      (cycle v : ℕ) (t : Timeval)
      → p.next ≡ []
      → Fits p.head
      → rejects p.head (field_of v p.head) ≡ false
      → parse_candata (notifier daemon strings) strings cycle v t (p ∷ []) c
        ≡ some (
          (outcome strings cycle t p v).property ∷ [],
          told strings b c (outcome strings cycle t p v),
        )
  unfolding parse_candata
  parse_candata_tells cycle v t single fits ok =
      let o = outcome strings cycle t p v in
      let push = notifier_pushes o.property (outcome-name strings cycle t p v) in
      rw (update_iviproperty_single strings cycle v t p single fits ok)
        (ap (λ c'. some (o.property ∷ [], if o.notifies then c' else c)) push)

  -- With the CAN-IDs in order, a frame of eight bytes at most, of a CAN-ID that is not only sent,
  -- with one property of one entry, whose field fits the frame and is accepted: the frame and the
  -- new value are stored, and if the thin-out rule says so, the new value is pushed once to the
  -- event of the property, which is valid and has a client or fails.
  pub parse_frame_pushes :
      (frame : CanFrame) (t : Timeval) (d : Dict) (info : CanidInfo)
      → IsSorted compare-IsOrder d.canid_root
      → frame.can_dlc ≤ 8
      → get_canid_dict (can_sff frame.can_id) d ≡ some info
      → info.kind ≢ can_kind_send
      → info.property ≡ p ∷ []
      → p.next ≡ []
      → Fits p.head
      → rejects p.head (field_of (canvalue2host frame.bytes) p.head) ≡ false
      → let o = outcome strings info.cycle t p (canvalue2host frame.bytes) in
        (d' : Dict) × (parse_frame (notifier daemon strings) strings frame t d c
          ≡ some (0, d', told strings b c o))
        × (get_canid_dict (can_sff frame.can_id) d'
            ≡ some (record info { canraw_frame = frame; property = o.property ∷ [] }))
  parse_frame_pushes frame t d info sorted short known receives alone single fits ok =
      let o = outcome strings info.cycle t p (canvalue2host frame.bytes) in
      let tells = parse_candata_tells info.cycle (canvalue2host frame.bytes) t single fits ok in
      let (d', parsed, stored) =
        parse_frame_received (notifier daemon strings) strings frame t d info sorted short known c
          (told strings b c o) (o.property ∷ []) receives (rw alone tells) in
      (d', parsed, stored.0)
