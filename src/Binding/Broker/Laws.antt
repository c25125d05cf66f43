-- ===== src/Binding/Broker/Laws.antt =====
-- What one operation does to the broker.
use mathlib.Core.Path.{fun_ext}
use agl_can_binder.Base.{
  ℕ, ◌≡◌, inl, inr, Bool, Option, none, some, List, CString, ℤ, pos, negsuc, arith, ◌==◌,
  Option-cases, Bool-cases,
}
use agl_can_binder.CanidInfo.Types.{Strings, Property}
use agl_can_binder.CanidSearch.Dict.{Dict}
use agl_can_binder.CanidSearch.Dict.WellFormed.{IsWellFormed}
use agl_can_binder.CanJson.Value.{Json}
use agl_can_binder.BindEvent.{BindEvent, Events, get_event, register_event}
use agl_can_binder.BindEvent.Laws.{register_event_lem, remove_event_lem}
use agl_can_binder.Binding.Notify.{Daemon, Clients, after_push, push_event, notify_property_changed}
use agl_can_binder.Binding.Delivery.{notifier}
use agl_can_binder.Binding.Broker.{
  Names, names_of, push, added, told, dropped, no_change, followed, Refines, Refines-refl,
}

module _ (Q : Property → Type 0) (strings : Strings) where
  -- With the tree in order and no event under the name, a registration adds an event of that name,
  -- for the property that the dictionaries have under it, or changes nothing.
  pub register_event-Refines :
      (memory : ℕ → Bool) (make_event : CString → Option ℕ) (name : CString) (d : Dict) (e : Events)
      (log : List (ℕ × Option Json))
      → IsWellFormed d
      → get_event name e ≡ none
      → Refines
          (names_of d)
          Q
          strings
          (record { events = e; pushes = log })
          (record { events = (register_event memory make_event name d e).0; pushes = log })
  unfolding get_event
  register_event-Refines memory make_event name d e log wf fresh s =
      elim (register_event_lem memory make_event name d e wf s fresh) [
        | inl (failed, same) ↦ rw same (s, no_change)
        | inr (b, made, named, known, order, found) ↦
            let step = added name b named fresh known in
            (order, rw (fun_ext found) (followed no_change step))
      ]

module _ (names : Names) (Q : Property → Type 0) (strings : Strings) where
  after_push-Refines :
      (n : ℤ) (p : Property) (b : BindEvent) (c : Clients)
      → Q p
      → get_event p.head.name c.events ≡ some b
      → Refines names Q strings c
          (after_push n p.head.name (record c { pushes = push strings b p c.pushes })).0
  unfolding after_push
  after_push-Refines (negsuc n) p b c q there s = (s, followed no_change (told p b q there))
  after_push-Refines (pos n) p b c q there s = elim (Bool-cases (n == 0)) [
    | inr some_client ↦ rw some_client (s, followed no_change (told p b q there))
    | inl nobody ↦
        let (order, cases) = remove_event_lem p.head.name c.events s in
        elim cases [
          | inl (gone, same) ↦ absurd (cc (gone, there))
          | inr (b', there', status, drops, found) ↦
              let step = dropped p b q there in
              rw nobody (order, rw (fun_ext found) (followed no_change step))
        ]
  ]

  -- With the tree in order, a notification of one in Q pushes the property to the event of its name, and if
  -- nobody gets it drops the event, or does nothing.
  pub notifier-Refines :
      (daemon : Daemon) (p : Property) (c : Clients)
      → Q p
      → Refines names Q strings c (notifier daemon strings p c)
  unfolding notifier notify_property_changed push_event
  notifier-Refines daemon p c q = elim (Option-cases (get_event p.head.name c.events)) [
    | inl gone ↦
        let same : notifier daemon strings p c ≡ c = ground (arith, gone) in
        rw same (Refines-refl names Q strings c)
    | inr (b, there) ↦ elim (Bool-cases (daemon.is_valid b.event)) [
      | inr invalid ↦
          let same : notifier daemon strings p c ≡ c = ground (arith, there, invalid) in
          rw same (Refines-refl names Q strings c)
      | inl valid ↦
          let told : notifier daemon strings p c
              ≡ (after_push (daemon.receivers b.event) p.head.name
                  (record c { pushes = push strings b p c.pushes })).0 =
            ground (arith, there, valid) in
          rw told (after_push-Refines (daemon.receivers b.event) p b c q there)
    ]
  ]
