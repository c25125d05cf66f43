-- ===== src/Binding/System/Refined.antt =====
-- The binding as a broker.
use agl_can_binder.Base.{ℕ, ◌≡◌, refl, ◌∙◌, ap, Bool, inl, inr, Option, some, List, [], CString}
use agl_can_binder.CanidInfo.Types.{Strings, Property}
use agl_can_binder.CanidSearch.Dict.{Dict, get_property_dict}
use agl_can_binder.CanidSearch.Dict.Every.{Every}
use agl_can_binder.Binding.Verbs.Sends.{set-sends}
use agl_can_binder.Binding.Broker.Kept.{Every-Known, Known-can_signal_send}
use agl_can_binder.CanidSearch.Dict.WellFormed.{IsWellFormed}
use agl_can_binder.BindEvent.{Events, get_event, get_subscribed_canids}
use agl_can_binder.CanJson.Value.{Json}
use agl_can_binder.CanSignalEvent.Parse.Follows.{IsRelated}
use agl_can_binder.Binding.Notify.{Daemon, Clients}
use agl_can_binder.Binding.Delivery.{notifier}
use agl_can_binder.Binding.Broker.{
  Names, names_of, Known, Due, decoded, due, Refines, Refines-refl, Refines-trans,
}
use agl_can_binder.Binding.Broker.Laws.{register_event-Refines, notifier-Refines}
use agl_can_binder.Binding.Verbs.{Process, Reply}
use agl_can_binder.Binding.Verbs.Listed.{list-state}
use agl_can_binder.Binding.Subscribe.Keeps.{subscribe_signal_keeps, subscribe-cases}
use agl_can_binder.Binding.Subscribe.{Client, subscribe_name, answer_subscription, subscribe}
use agl_can_binder.Binding.System.{
  System, clients, Step, arriving, setting, subscribing, listing, repeating, Reach, here, next,
}
use agl_can_binder.Binding.Subscribe.Tied.{subscribe_name-events, subscribe-Serves}
use agl_can_binder.Binding.System.Laws.{IsCoherent, on_event-Follows}
use agl_can_binder.Binding.System.Reachable.{set-IsCoherent, Reach-IsCoherent}

notifier-related :
    (names : Names) (d : Dict) (daemon : Daemon) (strings : Strings)
    → IsRelated
        (notifier daemon strings)
        strings
        (Known strings d)
        (Due strings d)
        (Refines names (Due strings d) strings)
notifier-related names d daemon strings = record {
  none_made = Refines-refl names (Due strings d) strings;
  one_more = Refines-trans names (Due strings d) strings;
  made = notifier-Refines names (Due strings d) strings daemon;
  grows = λ p cycle v t o k h. decoded p cycle v t o k h;
  tells = λ p cycle v t o k h n. due p cycle v t o k h n;
}

module _ (Q : Property → Type 0) (memory : ℕ → Bool) (make_event : CString → Option ℕ)
    (client : Client) (strings : Strings) (d : Dict) (wf : IsWellFormed d)
    (log : List (ℕ × Option Json)) where
  -- The broker with the events e, and the pushes made before the request.
  abbrev with_events : Events → Clients
  with_events e = record { events = e; pushes = log }

  subscribe_name-Refines :
      (name : CString) (e : Events) (apply : List (CString × Option Json))
      → Refines
          (names_of d)
          Q
          strings
          (with_events e)
          (with_events (subscribe_name memory make_event client strings d name e apply).0)
  subscribe_name-Refines name e apply =
      elim (subscribe_name-events memory make_event client strings d name e apply) [
        | inl same ↦ rw same (Refines-refl (names_of d) Q strings (with_events e))
        | inr (fresh, same) ↦
            rw same (register_event-Refines Q strings memory make_event name d e log wf fresh)
      ]

-- What a step does to the names of the dictionaries, to the broker, and to the properties; d0 are the
-- dictionaries that these come from.
abbrev Steps : Dict → Strings → System → System → Type 0
Steps d0 strings s s' =
    (s'.process.dict.property_root ≡ s.process.dict.property_root)
    × Refines (names_of s.process.dict) (Due strings d0) strings (clients s) (clients s')
    × Every (Known strings d0) s'.process.dict

module _ (names : Names) (Q : Property → Type 0) (strings : Strings)
    (log : List (ℕ × Option Json)) where
  answered-Refines :
      (c : Clients) (e' : Events) (apply : List (CString × Option Json)) (err : ℕ) (s : Process)
      → Refines names Q strings c (record { events = e'; pushes = log })
      → Refines names Q strings c
          (record { events = (answer_subscription (e', apply, err) s).0.events; pushes = log })
  unfolding get_event answer_subscription get_subscribed_canids
  answered-Refines c e' apply err s r order = r order

subscribe-Refines :
    (Q : Property → Type 0) (stack : ℕ) (memory : ℕ → Bool) (make_event : CString → Option ℕ)
    (client : Client) (strings : Strings) (event : Option CString) (s : System) (p' : Process)
    (reply : Reply)
    → IsWellFormed s.process.dict
    → subscribe stack memory make_event client strings event s.process ≡ some (p', reply)
    → Refines
        (names_of s.process.dict)
        Q
        strings
        (clients s)
        (record { events = p'.events; pushes = s.pushes })
subscribe-Refines Q stack memory make_event client strings event s p' reply wf h =
    let d = s.process.dict in
    let R : Events → Type 0 =
      λ e. Refines (names_of d) Q strings (clients s) (record { events = e; pushes = s.pushes }) in
    elim (subscribe-cases stack memory make_event client strings event s.process p' reply h) [
      | inl same ↦ rw same (Refines-refl (names_of d) Q strings (clients s))
      | inr (name, (e', apply, err), signalled, same) ↦
          let refines : R e' =
            subscribe_signal_keeps memory make_event client strings d R
              (λ n e l before.
                Refines-trans (names_of d) Q strings (clients s)
                  (record { events = e; pushes = s.pushes }) _ before
                  (subscribe_name-Refines Q memory make_event client strings d wf s.pushes n e l))
              stack name s.process.events [] (e', apply, err) signalled
              (Refines-refl (names_of d) Q strings (clients s)) in
          rw same (
            answered-Refines (names_of d) Q strings s.pushes (clients s) e' apply err s.process
              refines)
    ]

module _ (strings : Strings) (d0 : Dict) where
  Step-Refines :
      {s s' : System}
      → Step strings s s'
      → IsCoherent s
      → Every (Known strings d0) s.process.dict
      → Steps d0 strings s s'
  Step-Refines {s} {s'} (arriving daemon revents tstamp readings left h) c every =
      let names = names_of s.process.dict in
      let (sound, same, socket, refines, every') =
        on_event-Follows strings daemon (Known strings d0) (Due strings d0)
          (Refines names (Due strings d0) strings) revents tstamp readings left s s'
          (notifier-related names d0 daemon strings) c.sound every h in
      (same, refines, every')
  Step-Refines {s} (setting sends strtol name value p' reply h) c every =
      let (sound, serves, same, events) =
        set-IsCoherent strings sends strtol name value s.process p' reply c.sound c.serves h in
      let written : Every (Known strings d0) p'.dict =
        elim (set-sends strings sends strtol s.process p' reply name value h) [
          | inl kept ↦ rw kept every
          | inr (prop, w, sock', info, (sent, timers)) ↦
              Known-can_signal_send strings d0 sends prop w s.process.dict p'.dict s.process.socket
                sock' c.sound.well_formed.canids_in_order every sent
        ] in
      (
        same,
        rw events (Refines-refl (names_of s.process.dict) (Due strings d0) strings (clients s)),
        written,
      )
  Step-Refines {s} (subscribing stack memory make_event client event p' reply h) c every =
      let (dict, serves) =
        subscribe-Serves stack memory make_event client strings event s.process p' reply
          c.sound.well_formed h c.serves in
      (
        ap (λ (d : Dict). d.property_root) dict,
        subscribe-Refines (Due strings d0) stack memory make_event client strings event s p' reply
            c.sound.well_formed h,
        rw dict every,
      )
  Step-Refines {s} (listing granted p' reply h) c every =
      let (t, same) = list-state granted s.process p' reply h in
      rw same
        (refl, Refines-refl (names_of s.process.dict) (Due strings d0) strings (clients s), every)
  Step-Refines {s} (repeating sends canid info known) c every =
      (refl, Refines-refl (names_of s.process.dict) (Due strings d0) strings (clients s), every)

  reach-Steps :
      (s s' : System)
      → Reach strings s s'
      → IsCoherent s
      → Every (Known strings d0) s.process.dict
      → Steps d0 strings s s'
  unfolding get_property_dict
  reach-Steps s s' here c every =
      (refl, Refines-refl (names_of s.process.dict) (Due strings d0) strings (clients s), every)
  reach-Steps s s' (next {t} r step) c every =
      let (same, refines, every') = reach-Steps s t r c every in
      let (same', refines', every'') =
        Step-Refines step (Reach-IsCoherent strings s t r c) every' in
      (
        same' ∙ same,
        Refines-trans (names_of s.process.dict) (Due strings d0) strings (clients s) (clients t)
            (clients s') refines (rw same at refines'),
        every'',
      )

module _ (strings : Strings) where
  -- No call changes the tree of names.
  pub Reach-names :
      (s s' : System)
      → Reach strings s s'
      → IsCoherent s
      → s'.process.dict.property_root ≡ s.process.dict.property_root
  Reach-names s s' r c =
      (reach-Steps strings s.process.dict s s' r c (Every-Known strings s.process.dict)).0
