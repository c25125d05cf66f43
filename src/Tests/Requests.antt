-- ===== src/Tests/Requests.antt =====
-- Requests that hang together: two subscriptions, one to everything that does not return, and the names
-- that `list` answers.
use mathlib.Core.List.{Mem}
use agl_can_binder.Base.{
  none, ◌∷◌, ℕ, ◌≡◌, ◌⊎◌, refl, Option, true, some, List, [], codes, CString, strcmp,
}
use agl_can_binder.CanidSearch.Tree.{tfind}
use agl_can_binder.CanidSearch.Dict.{get_property_dict}
use agl_can_binder.BindEvent.{get_event, get_subscribed_canids}
use agl_can_binder.Binding.Verbs.{Process, names, list}
use agl_can_binder.Binding.Verbs.Listed.{list-Mem}
use agl_can_binder.Binding.Subscribe.Endless.{subscribe_endless}
use agl_can_binder.Binding.Subscribe.{subscribe}
use agl_can_binder.CanidSearch.Dict.{get_support_properties_list}
use agl_can_binder.Binding.Subscribe.Order.{twice, subscribe_comm}
use agl_can_binder.Tests.Data.{strings, granted, gear_ref}
use agl_can_binder.Tests.Nodes.{wide, wide_process, wide-IsWellFormed, gear-ne-lamp}
use agl_can_binder.Tests.Verbs.{client}

abbrev seven : CString → Option ℕ
seven name = some 7

subscribe_comm_example :
    (s1 : Process) × (s2 : Process) × (twice granted seven client strings 1
        (codes "gear")
        (codes "lamp")
        wide_process
      ≡ some s1)
    × (twice granted seven client strings 1 (codes "lamp") (codes "gear") wide_process ≡ some s2)
    × (s1.events.bind_event_root ≡ s2.events.bind_event_root)
    × ((get_subscribed_canids s1.events).1 ≡ (get_subscribed_canids s2.events).1)
    × (((get_subscribed_canids s1.events).1 ≡ []) ⊎ (s1.socket ≡ s2.socket))
unfolding get_event tfind strcmp
subscribe_comm_example =
    subscribe_comm granted seven client strings 0 (λ i. refl) (codes "gear") (codes "lamp")
      wide_process wide-IsWellFormed tt gear-ne-lamp refl refl refl refl

list-Mem_example :
    (l : List CString) × (list true wide_process
      ≡ some (record wide_process { tmplists = true }, names l))
    × Mem (codes "gear") l
unfolding get_property_dict tfind strcmp
list-Mem_example = list-Mem (codes "gear") gear_ref wide_process wide-IsWellFormed refl refl

-- A process whose second property is called "*".
abbrev starred : Process
starred = record wide_process {
  dict = record wide { support_property_list = codes "gear" ∷ codes "*" ∷ [] };
}

subscribe_endless_example :
    subscribe 9 granted seven client strings (some (codes "*")) starred ≡ none
unfolding get_support_properties_list
subscribe_endless_example = subscribe_endless 9 granted seven client strings starred 1 refl
