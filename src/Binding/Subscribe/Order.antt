-- ===== src/Binding/Subscribe/Order.antt =====
-- The order of two requests to subscribe.
use mathlib.Core.Path.{ap₂}
use agl_can_binder.Base.{
  ℕ, suc, ◌>>=◌, ◌≡◌, ◌≢◌, ◌⊎◌, ◌∙◌, refl, sym, ap, subst, inl, inr, Bool, true, false, Option,
  none, some, List, [], CString, codes, str_eq, arith, Option-cases,
}
use agl_can_binder.CanidInfo.Types.{Strings}
use agl_can_binder.CanidSearch.Tree.{walk}
use agl_can_binder.CanidSearch.Dict.{Dict}
use agl_can_binder.CanidSearch.Dict.WellFormed.{IsWellFormed}
use agl_can_binder.CanJson.Value.{Json}
use agl_can_binder.SocketcanRaw.{socketcan_update_filter}
use agl_can_binder.BindEvent.{
  BindEvent, Events, get_event, register_event, get_subscribed_canids, walk_canids,
}
use agl_can_binder.BindEvent.Laws.{InOrder}
use agl_can_binder.BindEvent.Same.{
  found_after, found_after-other, found_after_comm, get_event-registered, outcome_same, root-Alike,
}
use agl_can_binder.Binding.Verbs.{Process}
use agl_can_binder.Binding.Subscribe.{Client, subscribe_name, answer_subscription, subscribe}
use agl_can_binder.Binding.Subscribe.Tied.{subscribe_to-events}
use agl_can_binder.Binding.Subscribe.Returns.{IsSingle}
use agl_can_binder.Binding.Subscribe.Laws.{subscribe_single}
use agl_can_binder.Binding.Subscribe.Filter.{
  FollowsTree, update_filter_forgets, answer_subscription-tree,
}

module _ (memory : ℕ → Bool) (make_event : CString → Option ℕ) (client : Client) (strings : Strings)
    (d : Dict) where
  -- A name without an event is registered.
  subscribe_name-fresh :
      (name : CString) (e : Events) (apply : List (CString × Option Json))
      → get_event name e ≡ none
      → (subscribe_name memory make_event client strings d name e apply).0
        ≡ (register_event memory make_event name d e).0
  unfolding subscribe_name
  subscribe_name-fresh name e apply fresh =
      let r = register_event memory make_event name d e in
      elim (Option-cases r.1) [
        | inl failed ↦ ground (arith, fresh, failed)
        | inr (b, made) ↦
            ground (
              arith,
              fresh,
              made,
              subscribe_to-events memory make_event client strings d b r.0 apply,
            )
      ]

module _ (memory : ℕ → Bool) (make_event : CString → Option ℕ) (client : Client)
    (strings : Strings) where
  -- The process after a request for a name other than "*".
  abbrev after : CString → Process → Process
  after name s =
      (answer_subscription (subscribe_name memory make_event client strings s.dict name s.events [])
        s).0

  -- The process after two requests.
  abbrev pub twice : ℕ → CString → CString → Process → Option Process
  twice stack a b s = do
    (t, first) ← subscribe stack memory make_event client strings (some a) s
    (u, second) ← subscribe stack memory make_event client strings (some b) t
    some u

  twice-after :
      (stack : ℕ) (a b : CString) (s : Process)
      → IsSingle a
      → IsSingle b
      → twice (suc stack) a b s ≡ some (after b (after a s))
  twice-after stack a b s single_a single_b =
      rw (subscribe_single stack memory make_event client strings a s single_a)
        (rw (subscribe_single stack memory make_event client strings b (after a s) single_b) refl)

  abbrev pub canids : Process → List ℕ
  canids s = (get_subscribed_canids s.events).1

  subscribe-tree :
      (name : CString) (s : Process)
      → get_event name s.events ≡ none
      → FollowsTree (register_event memory make_event name s.dict s.events).0 s (after name s)
  subscribe-tree name s fresh =
      let r = subscribe_name memory make_event client strings s.dict name s.events [] in
      subst (λ e. FollowsTree e s (answer_subscription r s).0)
        (subscribe_name-fresh memory make_event client strings s.dict name s.events [] fresh)
        (answer_subscription-tree r s)

  -- The tree after a request, by what is found in it.
  subscribe-found :
      (name : CString) (s : Process)
      → IsWellFormed s.dict
      → InOrder s.events
      → get_event name s.events ≡ none
      → InOrder (after name s).events
        × ((n : CString)
            → get_event n (after name s).events
              ≡ found_after name
                  (register_event memory make_event name s.dict s.events).1
                  n
                  (get_event n s.events))
  unfolding get_event
  subscribe-found name s wf order fresh =
      let (dict, tree, sock) = subscribe-tree name s fresh in
      let (order', found) =
        get_event-registered memory make_event s.dict wf name s.events order fresh in
      (rw tree order', λ n. rw tree (found n))

  -- The tree after two requests.
  subscribe-found_twice :
      (granted : (i : ℕ) → memory i ≡ true) (a b : CString) (s : Process)
      → IsWellFormed s.dict
      → InOrder s.events
      → a ≢ b
      → get_event a s.events ≡ none
      → get_event b s.events ≡ none
      → let outcome =
          λ (name : CString). (register_event memory make_event name s.dict s.events).1 in
        InOrder (after b (after a s)).events
        × ((after b (after a s)).socket
            ≡ socketcan_update_filter
                (canids (after b (after a s)))
                (socketcan_update_filter (canids (after a s)) s.socket))
        × ((n : CString)
            → get_event n (after b (after a s)).events
              ≡ found_after b (outcome b) n (found_after a (outcome a) n (get_event n s.events)))
  subscribe-found_twice granted a b s wf order differ fresh_a fresh_b =
      let t = after a s in
      let outcome_a = (register_event memory make_event a s.dict s.events).1 in
      let (dict, tree, sock) = subscribe-tree a s fresh_a in
      let (order', found) = subscribe-found a s wf order fresh_a in
      let fresh_b' : get_event b t.events ≡ none =
        found b
        ∙ found_after-other a b outcome_a (get_event b s.events) (λ e. differ (sym e))
        ∙ fresh_b in
      let (order'', found') = subscribe-found b t (rw dict wf) order' fresh_b' in
      let same : (register_event memory make_event b t.dict t.events).1
          ≡ (register_event memory make_event b s.dict s.events).1 =
        ap (λ d. (register_event memory make_event b d t.events).1) dict
        ∙ outcome_same memory make_event s.dict wf granted b t.events s.events in
      let (dict', tree', sock') = subscribe-tree b t fresh_b' in
      (
        order'',
        sock' ∙ ap (socketcan_update_filter (canids (after b t))) sock,
        λ n. found' n ∙ ap₂ (λ o before. found_after b o n before) same (found n),
      )

  module _ (stack : ℕ) (granted : (i : ℕ) → memory i ≡ true) (a b : CString) (s : Process)
      (wf : IsWellFormed s.dict) (order : InOrder s.events) (differ : a ≢ b)
      (single_a : str_eq a (codes "*") ≡ false) (single_b : str_eq b (codes "*") ≡ false)
      (fresh_a : get_event a s.events ≡ none) (fresh_b : get_event b s.events ≡ none) where
    -- With well-formed dictionaries, the tree of events in order and memory for everything, two
    -- requests to subscribe to two names without events, other than "*", return in either order, and
    -- lead to the same tree of events, whether they succeed or fail, to the same list of CAN-IDs for the filter, and if that
    -- list is not empty, to the same state of the socket.
    pub subscribe_comm :
        (s1 : Process) × (s2 : Process) × (twice (suc stack) a b s ≡ some s1)
        × (twice (suc stack) b a s ≡ some s2)
        × (s1.events.bind_event_root ≡ s2.events.bind_event_root)
        × (canids s1 ≡ canids s2)
        × ((canids s1 ≡ []) ⊎ (s1.socket ≡ s2.socket))
    unfolding get_subscribed_canids
    subscribe_comm =
        let (order1, sock1, found1) =
          subscribe-found_twice granted a b s wf order differ fresh_a fresh_b in
        let (order2, sock2, found2) =
          subscribe-found_twice granted b a s wf order (λ e. differ (sym e)) fresh_b fresh_a in
        let outcome : CString → Option BindEvent =
          λ name. (register_event memory make_event name s.dict s.events).1 in
        let same =
          root-Alike (after b (after a s)).events (after a (after b s)).events order1 order2 λ n.
            found1 n
            ∙ found_after_comm a b n (outcome a) (outcome b) (get_event n s.events) differ
            ∙ sym (found2 n) in
        let listed : canids (after b (after a s)) ≡ canids (after a (after b s)) =
          ap (λ l. walk_canids (walk l) []) same in
        let forgets =
          update_filter_forgets (canids (after b (after a s))) (canids (after a s))
            (canids (after b s)) s.socket in
        (
          after b (after a s),
          after a (after b s),
          twice-after stack a b s single_a single_b,
          twice-after stack b a s single_b single_a,
          same,
          listed,
          elim forgets [
            | inl empty ↦ inl empty
            | inr one ↦ inr (
                sock1
                ∙ one
                ∙ ap
                    (λ l.
                      socketcan_update_filter l
                        (socketcan_update_filter (canids (after b s)) s.socket))
                    listed
                ∙ sym sock2)
          ],
        )
