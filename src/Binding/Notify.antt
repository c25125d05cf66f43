-- ===== src/Binding/Notify.antt =====
-- src/af-canivi-binding.c: `notify_property_changed`.
pub mod Laws
use agl_can_binder.Base.{
  ℕ, Bool, Option, none, some, List, [], ◌∷◌, ◌++◌, CString, if◌then◌else◌, ltb, ◌==◌, ℤ, pos,
  negsuc,
}
use agl_can_binder.CanidInfo.Types.{Strings, Property}
use agl_can_binder.CanJson.Value.{Json, property2json}
use agl_can_binder.BindEvent.{BindEvent, Events, get_event, remove_event}

-- What the daemon says of an event: whether it is valid, and to how many clients a push went.
pub record Daemon : Type 0 where
  pub is_valid : ℕ → Bool
  pub receivers : ℕ → ℤ

-- The subscribed events and the pushes made, oldest first: the event with the value, or NULL.
pub record Clients : Type 0 where
  pub events : Events
  pub pushes : List (ℕ × Option Json)

-- After a push: fewer than one client is 1, and no client at all drops the event.
unfoldable pub after_push : ℤ → CString → Clients → Clients × ℤ
after_push (negsuc n) name c = (c, pos 1)
after_push (pos n) name c =
    if n == 0 then (record c { events = (remove_event name c.events).0 }, pos 1) else (c, pos 0)

unfoldable pub push_event : Daemon → Strings → Property → BindEvent → Clients → Clients × ℤ
unfolding after_push
push_event daemon strings property_info b c =
    if daemon.is_valid b.event
    then after_push (daemon.receivers b.event) property_info.head.name
        (record c { pushes = c.pushes ++ (b.event, property2json strings property_info) ∷ [] })
    else (c, pos 1)

-- A property that nobody has subscribed to is 1.
unfoldable pub notify_property_changed : Daemon → Strings → Property → Clients → Clients × ℤ
unfolding push_event
notify_property_changed daemon strings property_info c =
    elim (get_event property_info.head.name c.events) [
      | none ↦ (c, pos 1)
      | some b ↦ push_event daemon strings property_info b c
    ]
