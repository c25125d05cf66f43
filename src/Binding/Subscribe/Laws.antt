-- ===== src/Binding/Subscribe/Laws.antt =====
-- What a subscription leaves behind, and when a request to unsubscribe succeeds.
use agl_can_binder.Base.{
  ℕ, suc, ◌⊎◌, ◌≤◌, ◌==◌, ltb, Bool-cases, ◌<◌, ◌≡◌, refl, ◌∙◌, Bool, true, false, inl, inr, Option,
  some, List, [], ◌∷◌, length, CString, codes, str_eq, strcmp, strcmp_refl, arith, Option-cases,
}
use agl_can_binder.CanidInfo.Types.{Strings}
use agl_can_binder.CanidSearch.Tree.{tfind, walk}
use agl_can_binder.CanidSearch.Dict.{Dict}
use agl_can_binder.CanidSearch.Dict.WellFormed.{IsWellFormed}
use agl_can_binder.CanJson.Value.{Json}
use agl_can_binder.BindEvent.{
  BindEvent, Events, contains, support_canid_max, get_event, get_subscribed_canids,
}
use agl_can_binder.BindEvent.Laws.{InOrder, register_event_lem}
use agl_can_binder.BindEvent.Canids.{registered, get_subscribed_canids_iff}
use agl_can_binder.SocketcanRaw.{is_negative, socketcan_update_filter}
use agl_can_binder.SocketcanRaw.Laws.{passes, wanted, passes-socketcan_update_filter}
use agl_can_binder.Binding.Verbs.{fail, Process, Reply}
use agl_can_binder.Binding.Subscribe.Returns.{IsSingle, subscribe_signal_single}
use agl_can_binder.Binding.Subscribe.{
  Client, subscribe_to, subscribe_name, answer_subscription, subscribe,
}

-- An event that is found stands in the tree with its CAN-ID.
registered-walk :
    (name : CString) (b : BindEvent) (l : List (CString × BindEvent))
    → tfind strcmp name l ≡ some b
    → registered b.raw_info.canid (walk l) ≡ true
unfolding tfind registered
registered-walk name b [] h = absurd (cc)
registered-walk name b ((n, x) ∷ l) h = ground (arith, registered-walk name b l)

wanted-contains : (c : ℕ) (l : List ℕ) → contains c l ≡ true → wanted c l ≡ true
unfolding contains
wanted-contains c [] h = absurd (cc)
wanted-contains c (x ∷ l) h = ground (arith, wanted-contains c l)

module _ (memory : ℕ → Bool) (make_event : CString → Option ℕ) (client : Client) (strings : Strings)
    (d : Dict) (name : CString) where
  -- A subscription of one name that succeeds leaves its event in the tree.
  subscribe_name-get_event :
      (e : Events) (apply : List (CString × Option Json))
      → IsWellFormed d
      → InOrder e
      → let (e', apply', n) = subscribe_name memory make_event client strings d name e apply in
        n ≡ 0 → (b : BindEvent) × (get_event name e' ≡ some b)
  unfolding subscribe_name subscribe_to
  subscribe_name-get_event e apply wf s ok = elim (Option-cases (get_event name e)) [
    | inr (b, there) ↦ (b, ground (arith, there))
    | inl fresh ↦ elim (register_event_lem memory make_event name d e wf s fresh) [
      | inl (failed, same) ↦ absurd (ground (arith, fresh, failed))
      | inr (b, made, named, known, order, found) ↦
          (b, ground (arith, fresh, made, found name, strcmp_refl name))
    ]
  ]

passes-contains :
    (c : ℕ) (l : List ℕ) (s : Process)
    → is_negative s.socket.canfd ≡ false
    → contains c l ≡ true
    → passes c (socketcan_update_filter l s.socket).filters ≡ true
unfolding contains
passes-contains c [] s opened h = absurd (cc)
passes-contains c (x ∷ l) s opened h =
    passes-socketcan_update_filter c x l s.socket opened ∙ wanted-contains c (x ∷ l) h

pub answer_subscription-passes :
    (e : Events) (apply : List (CString × Option Json)) (err : ℕ) (s : Process) (name : CString)
    (b : BindEvent)
    → is_negative s.socket.canfd ≡ false
    → get_event name e ≡ some b
    → length (get_subscribed_canids e).1 < support_canid_max
    → let (s', reply) = answer_subscription (e, apply, err) s in
      (get_event name s'.events ≡ some b) × (passes b.raw_info.canid s'.socket.filters ≡ true)
unfolding answer_subscription get_event get_subscribed_canids
answer_subscription-passes e apply err s name b opened there room =
    let c = b.raw_info.canid in
    (
      there,
      passes-contains c (get_subscribed_canids e).1 s opened
          (get_subscribed_canids_iff e c room ∙ registered-walk name b e.bind_event_root there),
    )

pub subscribe_single :
    (stack : ℕ) (memory : ℕ → Bool) (make_event : CString → Option ℕ) (client : Client)
    (strings : Strings) (name : CString) (s : Process)
    → IsSingle name
    → subscribe (suc stack) memory make_event client strings (some name) s
      ≡ some (
          answer_subscription
            (subscribe_name memory make_event client strings s.dict name s.events [])
            s)
unfolding subscribe
subscribe_single stack memory make_event client strings name s single =
    rw
      (subscribe_signal_single memory make_event client strings s.dict stack name s.events []
        single)
      refl

-- With well-formed dictionaries the events in order and an open descriptor, a request for one name
-- other than "*" returns; it fails, or the event of the name is there afterwards, and frames of its
-- CAN-ID pass the filter of the socket, unless the list of the filter is full.
pub passes-subscribe :
    (stack : ℕ) (memory : ℕ → Bool) (make_event : CString → Option ℕ) (client : Client)
    (strings : Strings) (name : CString) (s : Process)
    → IsWellFormed s.dict
    → InOrder s.events
    → is_negative s.socket.canfd ≡ false
    → str_eq name (codes "*") ≡ false
    → (s' : Process) × (reply : Reply) × (subscribe
          (suc stack)
          memory
          make_event
          client
          strings
          (some name)
          s
        ≡ some (s', reply))
      × ((reply ≡ fail (codes "error"))
          ⊎ (support_canid_max ≤ length s'.events.subscribed_canids)
          ⊎ ((b : BindEvent) × (get_event name s'.events ≡ some b)
              × (passes b.raw_info.canid s'.socket.filters ≡ true)))
unfolding answer_subscription get_subscribed_canids
passes-subscribe stack memory make_event client strings name s wf order opened single =
    let (e, apply, err) = subscribe_name memory make_event client strings s.dict name s.events [] in
    let (s', reply) = answer_subscription (e, apply, err) s in
    (
      s',
      reply,
      subscribe_single stack memory make_event client strings name s single,
      elim (Bool-cases (err == 0)) [
        | inr failed ↦ inl (rw failed refl)
        | inl ok ↦ elim (Bool-cases (ltb (length s'.events.subscribed_canids) support_canid_max)) [
          | inr full ↦ inr (inl (ground (arith, full)))
          | inl room ↦
              let (b, there) =
                subscribe_name-get_event memory make_event client strings s.dict name s.events [] wf
                  order (ground (arith, ok)) in
              let kept =
                answer_subscription-passes e apply err s name b opened there
                  (ground (arith, room)) in
              inr (inr (b, kept.0, kept.1))
        ]
      ],
    )
