-- ===== src/Binding/Subscribe.antt =====
-- src/af-canivi-binding.c: the verbs `subscribe` and `unsubscribe`.
pub mod Keeps
pub mod Returns
pub mod Endless
pub mod Laws
pub mod Tied
pub mod Filter
pub mod Order
use agl_can_binder.Base.{
  ℕ, zero, suc, ◌+◌, Bool, true, false, map, Option, none, some, List, [], ◌∷◌, ◌++◌, CString,
  codes, str_eq, if◌then◌else◌, ◌==◌, ◌>>=◌,
}
use agl_can_binder.CanidInfo.Types.{Strings}
use agl_can_binder.CanidSearch.Dict.{Dict, deref, get_support_properties_list}
use agl_can_binder.CanJson.Value.{Json, property2json}
use agl_can_binder.BindEvent.{BindEvent, Events, get_event, register_event, get_subscribed_canids}
use agl_can_binder.SocketcanRaw.{socketcan_update_filter}
use agl_can_binder.Binding.Verbs.{Reply, fail, applied, success, Process}

-- The answers of the daemon to a request: whether it subscribes the client to an event, and whether
-- it takes the subscription back.
pub record Client : Type 0 where
  pub subscribes : ℕ → Bool
  pub unsubscribes : ℕ → Bool

-- The events, the values of the properties that were subscribed to, and the number of failures.
abbrev pub Signalled : Type 0
Signalled = Events × List (CString × Option Json) × ℕ

module _ (memory : ℕ → Bool) (make_event : CString → Option ℕ) (client : Client) (strings : Strings)
    (d : Dict) where
  -- From `afb_req_subscribe` on. The value is of the property that the event holds.
  unfoldable pub subscribe_to : BindEvent → Events → List (CString × Option Json) → Signalled
  subscribe_to b e apply =
      if client.subscribes b.event
      then (e, apply ++ (b.name, (do p ← deref b.raw_info d; property2json strings p)) ∷ [], 0)
      else (e, apply, 1)

  -- `subscribe_signal` for a name other than "*".
  unfoldable pub subscribe_name : CString → Events → List (CString × Option Json) → Signalled
  unfolding subscribe_to
  subscribe_name name e apply = elim (get_event name e) [
    | some b ↦ subscribe_to b e apply
    | none ↦
        let (e', result) = register_event memory make_event name d e in
        elim result [ none ↦ (e', apply, 1) | some b ↦ subscribe_to b e' apply ]
  ]

  -- The loop of `subscribe_all`; `signal` is the function that it calls, and `err` counts the failures.
  pub subscribe_all :
      (CString → Events → List (CString × Option Json) → Option Signalled)
      → List CString
      → Events
      → List (CString × Option Json)
      → ℕ
      → Option Signalled
  subscribe_all signal [] e apply err = some (e, apply, err)
  subscribe_all signal (name ∷ rest) e apply err = do
    (e', apply', n) ← signal name e apply
    subscribe_all signal rest e' apply' (err + n)

  -- `subscribe_signal` on a stack for so many of its calls; `none` if they are not enough. They never
  -- are for "*" if a property is called so.
  unfoldable pub subscribe_signal :
      ℕ → CString → Events → List (CString × Option Json) → Option Signalled
  unfolding subscribe_all
  subscribe_signal zero name e apply = none
  subscribe_signal (suc stack) name e apply = elim (str_eq name (codes "*")) [
    | true ↦ subscribe_all (subscribe_signal stack) (get_support_properties_list d) e apply 0
    | false ↦ some (subscribe_name name e apply)
  ]

-- What follows `subscribe_signal`: the filter of the socket is brought up to date, also on a failure.
unfoldable pub answer_subscription : Signalled → Process → Process × Reply
answer_subscription (e, apply, err) s =
    let (e', targetids) = get_subscribed_canids e in
    (
      record s { events = e'; socket = socketcan_update_filter targetids s.socket },
      if err == 0 then applied apply else fail (codes "error"),
    )

-- `subscribe`
unfoldable pub subscribe :
    ℕ
    → (ℕ → Bool)
    → (CString → Option ℕ)
    → Client
    → Strings
    → Option CString
    → Process
    → Option (Process × Reply)
unfolding answer_subscription
subscribe stack memory make_event client strings none s = some (s, fail (codes "error"))
subscribe stack memory make_event client strings (some event) s = do
  r ← subscribe_signal memory make_event client strings s.dict stack event s.events []
  some (answer_subscription r s)

module _ (client : Client) (e : Events) where
  -- `unsubscribe_signal` for a name other than "*".
  pub unsubscribe_name : CString → ℕ
  unsubscribe_name name = elim (get_event name e) [
    | none ↦ 1
    | some b ↦ if client.unsubscribes b.event then 0 else 1
  ]

  -- The loops of `unsubscribe_all` and of `unsubscribe` over names; `signal` is the function that they
  -- call. They go on after a failure.
  pub unsubscribe_each : (Option CString → Option ℕ) → List (Option CString) → Option ℕ
  unsubscribe_each signal [] = some 0
  unsubscribe_each signal (name ∷ rest) = do
    n ← signal name
    k ← unsubscribe_each signal rest
    some (n + k)

  pub unsubscribe_all : (Option CString → Option ℕ) → List CString → Option ℕ
  unfolding unsubscribe_each
  unsubscribe_all signal supported = unsubscribe_each signal (map some supported)

  -- `unsubscribe_signal` on a stack for so many of its calls, as for `subscribe_signal`. The name may be
  -- NULL, which `strcmp` reads through.
  pub unsubscribe_signal : ℕ → List CString → Option CString → Option ℕ
  unfolding unsubscribe_name unsubscribe_all
  unsubscribe_signal zero supported name = none
  unsubscribe_signal (suc stack) supported none = none
  unsubscribe_signal (suc stack) supported (some name) = elim (str_eq name (codes "*")) [
    | true ↦ unsubscribe_all (unsubscribe_signal stack supported) supported
    | false ↦ some (unsubscribe_name name)
  ]

-- The argument "event" of the request: missing, an array, or any other value; with the strings that
-- `json_object_get_string` makes of the value or of the elements, which are NULL for null.
pub data Wanted : Type 0 where
  everything : Wanted
  one : Option CString → Wanted
  many : List (Option CString) → Wanted

pub count_failures : ℕ → Client → Wanted → Process → Option ℕ
unfolding unsubscribe_all
count_failures stack client wanted s =
    let supported = get_support_properties_list s.dict in
    let signal = unsubscribe_signal client s.events stack supported in
    elim wanted [
      | everything ↦ unsubscribe_all client s.events signal supported
      | one name ↦ signal name
      | many names ↦ unsubscribe_each client s.events signal names
    ]

-- `unsubscribe`, which changes no state of the process.
pub unsubscribe : ℕ → Client → Wanted → Process → Option Reply
unfolding count_failures
unsubscribe stack client wanted s = do
  err ← count_failures stack client wanted s
  some (if err == 0 then success else fail (codes "error"))
