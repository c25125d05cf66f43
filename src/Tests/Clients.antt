-- ===== src/Tests/Clients.antt =====
-- The socket, the subscribed events and the notifications.
use agl_can_binder.Base.{◌≡◌, refl, true, Bool, some, [], codes, pos, arith}
use agl_can_binder.CanidInfo.Types.{CanFrame}
use agl_can_binder.CanidSearch.Tree.{tfind, walk}
use agl_can_binder.BindEvent.{
  contains, get_subscribed_canids, walk_canids, add_subscribed_canid, get_event, register_event,
}
use agl_can_binder.BindEvent.Laws.{Registers, register_event_lem}
use agl_can_binder.BindEvent.Canids.{registered, get_subscribed_canids_iff}
use agl_can_binder.Binding.Notify.{Daemon, Clients}
use agl_can_binder.Tests.Data.{dict, granted, events, no_events}
use agl_can_binder.Tests.Dictionary.{dict-IsWellFormed}

abbrev takes : CanFrame → Bool
takes _ = true

get_subscribed_canids_iff_example :
    contains 0x120 (get_subscribed_canids events).1 ≡ registered 0x120 (walk events.bind_event_root)
unfolding get_subscribed_canids walk_canids add_subscribed_canid contains
get_subscribed_canids_iff_example = get_subscribed_canids_iff events 0x120 (omega arith)

register_event_lem_example :
    Registers
      (codes "gear")
      dict
      no_events
      (register_event granted (λ n. some 7) (codes "gear") dict no_events)
unfolding get_event tfind
register_event_lem_example =
    register_event_lem granted (λ n. some 7) (codes "gear") dict no_events dict-IsWellFormed tt refl

-- One client, and none.
abbrev pub one_client : Daemon
one_client = record { is_valid = λ e. true; receivers = λ e. pos 1 }

abbrev nobody : Daemon
nobody = record { is_valid = λ e. true; receivers = λ e. pos 0 }

abbrev pub clients : Clients
clients = record { events = events; pushes = [] }
