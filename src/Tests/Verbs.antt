-- ===== src/Tests/Verbs.antt =====
-- The verbs, and a frame on its way to a client.
use agl_can_binder.Base.{
  false, length, ◌≤◌, ◌⊎◌, ◌≡◌, refl, true, some, none, codes, CString, pos, ℤ, strcmp,
}
use agl_can_binder.CanidSearch.Tree.{tfind, insert}
use agl_can_binder.CanidSearch.Dict.{get_property_dict, deref}
use agl_can_binder.BindEvent.{
  support_canid_max, BindEvent, get_event, register_event, register_found, get_subscribed_canids,
  walk_canids, add_subscribed_canid, contains,
}
use agl_can_binder.SocketcanRaw.Laws.{passes}
use agl_can_binder.Binding.Verbs.{Reply, fail, Process}
use agl_can_binder.Binding.Subscribe.{
  Client, subscribe, subscribe_signal, subscribe_name, subscribe_to, answer_subscription,
}
use agl_can_binder.Binding.Subscribe.Laws.{passes-subscribe}
use agl_can_binder.Tests.Data.{strings, dict, granted, socket, no_events}
use agl_can_binder.Tests.Dictionary.{dict-IsWellFormed}

abbrev process : Process
process = record {
  dict = dict;
  events = no_events;
  socket = socket;
  timers = λ fd. none;
  tmplists = false;
}

abbrev pub client : Client
client = record { subscribes = λ e. true; unsubscribes = λ e. true }

-- What `strtol` makes of any text here.
abbrev five : CString → ℤ
five text = pos 5

passes-subscribe_example :
    (s' : Process) × (reply : Reply) × (subscribe 1 granted
        (λ n. some 7)
        client
        strings
        (some (codes "gear"))
        process
      ≡ some (s', reply))
    × ((reply ≡ fail (codes "error"))
        ⊎ (support_canid_max ≤ length s'.events.subscribed_canids)
        ⊎ ((b : BindEvent) × (get_event (codes "gear") s'.events ≡ some b)
            × (passes b.raw_info.canid s'.socket.filters ≡ true)))
unfolding subscribe subscribe_signal subscribe_name subscribe_to answer_subscription register_event
    register_found get_event get_property_dict deref tfind insert strcmp get_subscribed_canids
    walk_canids add_subscribed_canid contains
passes-subscribe_example =
    passes-subscribe 0 granted (λ n. some 7) client strings (codes "gear") process dict-IsWellFormed
      tt refl refl
