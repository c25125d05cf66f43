-- ===== src/Binding/Subscribe/Tied.antt =====
-- What requests to subscribe keep: the events stay tied to the dictionary, and the filter follows them.
use agl_can_binder.Base.{
  ℕ, ◌<◌, ◌≡◌, refl, true, false, Bool, ◌⊎◌, inl, inr, Option, none, some, List, [], ◌∷◌, length,
  CString, arith, Option-cases,
}
use agl_can_binder.CanidInfo.Types.{Strings}
use agl_can_binder.CanidSearch.Dict.{Dict}
use agl_can_binder.CanidSearch.Dict.WellFormed.{IsWellFormed}
use agl_can_binder.CanJson.Value.{Json}
use agl_can_binder.BindEvent.{
  BindEvent, Events, support_canid_max, get_event, register_event, get_subscribed_canids,
}
use agl_can_binder.BindEvent.Tied.{IsTied, register_event-IsTied}
use agl_can_binder.SocketcanRaw.{Socket, is_negative, socketcan_update_filter}
use agl_can_binder.SocketcanRaw.Laws.{passes}
use agl_can_binder.Binding.Verbs.{Process, Reply}
use agl_can_binder.Binding.Subscribe.Keeps.{subscribe_signal_keeps, subscribe-cases}
use agl_can_binder.Binding.Subscribe.{
  Client, subscribe_to, subscribe_name, answer_subscription, subscribe,
}
use agl_can_binder.Binding.Subscribe.Laws.{answer_subscription-passes}

module _ (memory : ℕ → Bool) (make_event : CString → Option ℕ) (client : Client) (strings : Strings)
    (d : Dict) where
  pub subscribe_to-events :
      (b : BindEvent) (e : Events) (apply : List (CString × Option Json))
      → (subscribe_to memory make_event client strings d b e apply).0 ≡ e
  unfolding subscribe_to
  subscribe_to-events b e apply = ground arith

  -- One name changes nothing, or is registered.
  pub subscribe_name-events :
      (name : CString) (e : Events) (apply : List (CString × Option Json))
      → let e' = (subscribe_name memory make_event client strings d name e apply).0 in
        (e' ≡ e)
        ⊎ ((get_event name e ≡ none) × (e' ≡ (register_event memory make_event name d e).0))
  unfolding subscribe_name
  subscribe_name-events name e apply = elim (Option-cases (get_event name e)) [
    | inr (b, there) ↦ inl (ground (arith, there, subscribe_to-events b e apply))
    | inl fresh ↦
        let r = register_event memory make_event name d e in
        elim (Option-cases r.1) [
          | inl failed ↦ inr (fresh, ground (arith, fresh, failed))
          | inr (b, made) ↦
              inr (fresh, ground (arith, fresh, made, subscribe_to-events b r.0 apply))
        ]
  ]

module _ (memory : ℕ → Bool) (make_event : CString → Option ℕ) (client : Client) (strings : Strings)
    (d : Dict) (wf : IsWellFormed d) where
  subscribe_name-IsTied :
      (name : CString) (e : Events) (apply : List (CString × Option Json))
      → IsTied d e
      → IsTied d (subscribe_name memory make_event client strings d name e apply).0
  subscribe_name-IsTied name e apply t =
      elim (subscribe_name-events memory make_event client strings d name e apply) [
        | inl same ↦ rw same t
        | inr (fresh, same) ↦ rw same (register_event-IsTied memory make_event name d e wf fresh t)
      ]

-- Frames of every event's CAN-ID pass the filter of the socket, unless the list of the filter is full.
abbrev pub Passing : Events → Socket → Type 0
Passing e sock =
    length e.subscribed_canids < support_canid_max
    → (n : CString) (b : BindEvent) → get_event n e ≡ some b
    → passes b.raw_info.canid sock.filters ≡ true

answer_subscription-Passing :
    (e : Events) (apply : List (CString × Option Json)) (err : ℕ) (s : Process)
    → is_negative s.socket.canfd ≡ false
    → let s' = (answer_subscription (e, apply, err) s).0 in Passing s'.events s'.socket
unfolding answer_subscription get_event get_subscribed_canids
answer_subscription-Passing e apply err s opened room n b there =
    (answer_subscription-passes e apply err s n b opened there room).1

socketcan_update_filter-canfd :
    (l : List ℕ) (sock : Socket) → (socketcan_update_filter l sock).canfd ≡ sock.canfd
unfolding socketcan_update_filter
socketcan_update_filter-canfd [] sock = refl
socketcan_update_filter-canfd (c ∷ rest) sock = ground arith

pub answer_subscription-rest :
    (e : Events) (apply : List (CString × Option Json)) (err : ℕ) (s : Process)
    → let s' = (answer_subscription (e, apply, err) s).0 in
      (s'.dict ≡ s.dict)
      × (s'.events.bind_event_root ≡ e.bind_event_root)
      × (s'.socket.canfd ≡ s.socket.canfd)
unfolding answer_subscription get_subscribed_canids
answer_subscription-rest e apply err s =
    (refl, refl, socketcan_update_filter-canfd (get_subscribed_canids e).1 s.socket)

-- What a request leaves true.
abbrev pub Serves : Process → Type 0
Serves s = IsTied s.dict s.events × (is_negative s.socket.canfd ≡ false) × Passing s.events s.socket

answer_subscription-Serves :
    (e : Events) (apply : List (CString × Option Json)) (err : ℕ) (s : Process)
    → is_negative s.socket.canfd ≡ false
    → IsTied s.dict e
    → let s' = (answer_subscription (e, apply, err) s).0 in (s'.dict ≡ s.dict) × Serves s'
unfolding get_event
answer_subscription-Serves e apply err s opened t =
    let (dict, root, fd) = answer_subscription-rest e apply err s in
    let tied : IsTied s.dict (answer_subscription (e, apply, err) s).0.events = record {
      in_order = rw root t.in_order;
      tied = λ n b h. t.tied n b (rw root at h);
    } in
    (dict, (rw dict tied, rw fd opened, answer_subscription-Passing e apply err s opened))

-- A request to subscribe that returns, whatever it asks for and whether it fails or not, leaves the
-- dictionaries as they are, the events tied to them, the descriptor open and the filter passing the
-- events.
pub subscribe-Serves :
    (stack : ℕ) (memory : ℕ → Bool) (make_event : CString → Option ℕ) (client : Client)
    (strings : Strings) (event : Option CString) (s s' : Process) (reply : Reply)
    → IsWellFormed s.dict
    → subscribe stack memory make_event client strings event s ≡ some (s', reply)
    → Serves s
    → (s'.dict ≡ s.dict) × Serves s'
subscribe-Serves stack memory make_event client strings event s s' reply wf h (t, opened, passing) =
    elim (subscribe-cases stack memory make_event client strings event s s' reply h) [
      | inl same ↦ rw same (refl, (t, opened, passing))
      | inr (name, r, signalled, same) ↦
          let tied : IsTied s.dict r.0 =
            subscribe_signal_keeps memory make_event client strings s.dict (IsTied s.dict)
              (subscribe_name-IsTied memory make_event client strings s.dict wf) stack name s.events
              [] r signalled t in
          rw same (answer_subscription-Serves r.0 r.1 r.2 s opened tied)
    ]
