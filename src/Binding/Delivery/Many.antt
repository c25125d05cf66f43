-- ===== src/Binding/Delivery/Many.antt =====
-- From a frame of a CAN-ID with any number of properties to the clients.
use mathlib.Core.List.{append_assoc, append-nil}
use agl_can_binder.Base.{
  ℕ, ◌≤◌, ◌≡◌, ◌≢◌, ◌∙◌, refl, ap, sym, true, Option, none, some, List, [], ◌∷◌, ◌++◌, map, inl,
  inr, All, CString, if◌then◌else◌, ◌>>=◌, pos, arith, Option-cases, Bool-cases,
}
use agl_can_binder.CanidInfo.Types.{Strings, Timeval, CanFrame, Property, CanidInfo, can_kind_send}
use agl_can_binder.CanidInfo.Endian.{canvalue2host}
use agl_can_binder.CanidSearch.Dict.{Dict, get_canid_dict}
use agl_can_binder.CanJson.Value.{Json, property2json}
use agl_can_binder.BindEvent.{BindEvent, Events, get_event}
use agl_can_binder.CanSignalEvent.Ivi.{Outcome, update_iviproperty}
use agl_can_binder.CanSignalEvent.Ivi.Total.{PropertyDefined, update_iviproperty_total}
use agl_can_binder.CanSignalEvent.Parse.{can_sff, parse_candata, parse_frame}
use agl_can_binder.CanSignalEvent.Parse.Laws.{parse_frame_received}
use agl_can_binder.CanSignalEvent.Parse.Total.{IsReadable}
use agl_can_binder.Binding.Notify.{Daemon, Clients}
use agl_can_binder.Binding.Notify.Laws.{notify_subscribed, notify_unsubscribed}
use agl_can_binder.Binding.Delivery.{notifier}

-- What the updates of the properties come to, each on its own.
pub outcomes : Strings → ℕ → ℕ → Timeval → List Property → Option (List Outcome)
outcomes strings cycle v t [] = some []
outcomes strings cycle v t (p ∷ rest) = do
  o ← update_iviproperty strings cycle v p t
  os ← outcomes strings cycle v t rest
  some (o ∷ os)

-- The push that an outcome calls for: the new property, to the event of its name.
push_of : Strings → Events → Outcome → List (ℕ × Option Json)
push_of strings e o =
    if o.notifies
    then elim (get_event o.property.head.name e) [
      | none ↦ []
      | some b ↦ (b.event, property2json strings o.property) ∷ []
    ]
    else []

-- The pushes of several, in their order.
pub pushes_of : Strings → Events → List Outcome → List (ℕ × Option Json)
pushes_of strings e [] = []
pushes_of strings e (o ∷ rest) = push_of strings e o ++ pushes_of strings e rest

abbrev pub new_properties : List Outcome → List Property
new_properties os = map (λ (o : Outcome). o.property) os

-- Every event is valid, and its pushes reach a client or fail.
abbrev pub Stable : Daemon → Events → Type 0
Stable daemon e =
    (n : CString) (b : BindEvent)
    → get_event n e ≡ some b
    → (daemon.is_valid b.event ≡ true) × (daemon.receivers b.event ≢ pos 0)

module _ (daemon : Daemon) (strings : Strings) where
  notifier-push_of :
      (o : Outcome) (c : Clients)
      → Stable daemon c.events
      → (if o.notifies then notifier daemon strings o.property c else c)
        ≡ record c { pushes = c.pushes ++ push_of strings c.events o }
  unfolding push_of notifier
  notifier-push_of o c stable = elim (Bool-cases o.notifies) [
    | inr silent ↦ ground (arith, silent, append-nil c.pushes)
    | inl tells ↦ elim (Option-cases (get_event o.property.head.name c.events)) [
      | inl gone ↦
          let quiet =
            notify_unsubscribed daemon strings o.property c (λ b h. absurd (cc (gone, h))) in
          rw (tells, gone)
            (ap (λ r. r.0) quiet ∙ ap (λ l. record c { pushes = l }) (sym (append-nil c.pushes)))
      | inr (b, there) ↦
          let (valid, reached) = stable o.property.head.name b there in
          let told = notify_subscribed daemon strings o.property c b there valid reached in
          rw (tells, there) (ap (λ r. r.0) told)
    ]
  ]

  -- With stable clients, the properties become the new ones of the outcomes, and the pushes that the
  -- outcomes call for are made, in order.
  parse_candata_pushes :
      (cycle v : ℕ) (t : Timeval) (l : List Property) (os : List Outcome) (c : Clients)
      → Stable daemon c.events
      → outcomes strings cycle v t l ≡ some os
      → parse_candata (notifier daemon strings) strings cycle v t l c
        ≡ some (new_properties os, record c { pushes = c.pushes ++ pushes_of strings c.events os })
  unfolding parse_candata outcomes pushes_of
  parse_candata_pushes cycle v t [] os c stable h =
      let same : os ≡ [] = ground arith in
      rw same (ap (λ l. some ([], record c { pushes = l })) (sym (append-nil c.pushes)))
  parse_candata_pushes cycle v t (p ∷ rest) os c stable h =
      elim (Option-cases (update_iviproperty strings cycle v p t)) [
        | inl undefined ↦ absurd (ground arith)
        | inr (o, first) ↦ elim (Option-cases (outcomes strings cycle v t rest)) [
          | inl undefined ↦ absurd (ground arith)
          | inr (os', later) ↦
              let same : os ≡ o ∷ os' = ground arith in
              let c1 : Clients = record c { pushes = c.pushes ++ push_of strings c.events o } in
              let again = parse_candata_pushes cycle v t rest os' c1 stable later in
              rw (same, first)
                (rw (notifier-push_of o c stable) (
                  rw again (
                    ap (λ l. some (new_properties (o ∷ os'), record c { pushes = l }))
                      (append_assoc c.pushes (push_of strings c.events o)
                        (pushes_of strings c.events os')))))
        ]
      ]

  outcomes_total :
      (cycle v : ℕ) (t : Timeval) (l : List Property)
      → All PropertyDefined l
      → (os : List Outcome) × (outcomes strings cycle v t l ≡ some os)
  unfolding outcomes
  outcomes_total cycle v t [] all = ([], refl)
  outcomes_total cycle v t (p ∷ rest) all =
      let (o, first, good) = update_iviproperty_total strings cycle v p t all.0 in
      let (os, later) = outcomes_total cycle v t rest all.1 in (o ∷ os, rw first (rw later refl))

  -- In readable dictionaries, with stable clients, a frame of eight bytes at most, of a CAN-ID that is
  -- not only sent, with any number of properties, is parsed: the frame is stored, each property
  -- becomes what its own update makes of it, and for every outcome that notifies and whose name has
  -- an event, in the order of the properties, the new property is pushed once to that event; nothing
  -- else is pushed, and no event is lost.
  pub parse_frame_pushes_all :
      (frame : CanFrame) (t : Timeval) (d : Dict) (info : CanidInfo) (c : Clients)
      → IsReadable d
      → Stable daemon c.events
      → frame.can_dlc ≤ 8
      → get_canid_dict (can_sff frame.can_id) d ≡ some info
      → info.kind ≢ can_kind_send
      → (os : List Outcome) × (d' : Dict) × (outcomes strings info.cycle
            (canvalue2host frame.bytes)
            t
            info.property
          ≡ some os)
        × (parse_frame (notifier daemon strings) strings frame t d c
            ≡ some (0, d', record c { pushes = c.pushes ++ pushes_of strings c.events os }))
        × (get_canid_dict (can_sff frame.can_id) d'
            ≡ some (record info { canraw_frame = frame; property = new_properties os }))
  parse_frame_pushes_all frame t d info c readable stable short known receives =
      let v = canvalue2host frame.bytes in
      let (os, come) =
        outcomes_total info.cycle v t info.property
          (readable.defined (can_sff frame.can_id) info known) in
      let told = parse_candata_pushes info.cycle v t info.property os c stable come in
      let (d', parsed, stored) =
        parse_frame_received (notifier daemon strings) strings frame t d info
          readable.sound.well_formed.canids_in_order short known c _ (new_properties os) receives
          told in
      (os, d', come, parsed, stored.0)
