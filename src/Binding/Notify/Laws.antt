-- ===== src/Binding/Notify/Laws.antt =====
-- Who is told of a property, and when an event is dropped.
use agl_can_binder.Base.{
  zero, suc, ◌≡◌, ◌≢◌, ◌∙◌, refl, true, false, none, some, [], ◌∷◌, ◌++◌, inl, inr, CString, strcmp,
  is_eq, if◌then◌else◌, ℤ, pos, negsuc, arith, Option-cases,
}
use agl_can_binder.CanidInfo.Types.{Strings, Property}
use agl_can_binder.CanJson.Value.{property2json}
use agl_can_binder.BindEvent.{BindEvent, get_event, remove_event}
use agl_can_binder.BindEvent.Laws.{InOrder, remove_event_lem}
use agl_can_binder.Binding.Notify.{Daemon, Clients, after_push, notify_property_changed}

-- What a push that reached a client, or failed, is answered with.
abbrev pub push_answer : ℤ → ℤ
push_answer (pos n) = pos 0
push_answer (negsuc n) = pos 1

after_push-answer :
    (r : ℤ) (name : CString) (c : Clients) → r ≢ pos 0 → after_push r name c ≡ (c, push_answer r)
unfolding after_push
after_push-answer (pos zero) name c h = absurd (h refl)
after_push-answer (pos (suc n)) name c h = ground arith
after_push-answer (negsuc n) name c h = refl

after_push-nobody :
    (r : ℤ) (name : CString) (c : Clients)
    → r ≡ pos 0
    → after_push r name c ≡ (record c { events = (remove_event name c.events).0 }, pos 1)
unfolding after_push
after_push-nobody r name c h = ground arith

module _ (daemon : Daemon) (strings : Strings) (p : Property) (c : Clients) where
  -- Without a valid event of the property's name nothing happens, and the answer is 1.
  pub notify_unsubscribed :
      ((b : BindEvent) → get_event p.head.name c.events ≡ some b → daemon.is_valid b.event ≡ false)
      → notify_property_changed daemon strings p c ≡ (c, pos 1)
  unfolding notify_property_changed
  notify_unsubscribed h = elim (Option-cases (get_event p.head.name c.events)) [
    | inl gone ↦ ground arith
    | inr (b, there) ↦ ground (arith, h b there)
  ]

  module _ (b : BindEvent) (there : get_event p.head.name c.events ≡ some b)
      (valid : daemon.is_valid b.event ≡ true) where
    pushed : Clients
    pushed = record c { pushes = c.pushes ++ (b.event, property2json strings p) ∷ [] }

    notify_pushes :
        notify_property_changed daemon strings p c
        ≡ after_push (daemon.receivers b.event) p.head.name pushed
    unfolding notify_property_changed pushed
    notify_pushes = rw (there, notify_property_changed) (rw valid)

    -- With a valid event of the name of the property, the value is pushed once. With a client, or
    -- an error of the push, all events stay; the answer is 0 with a client and 1 with an error.
    pub notify_subscribed :
        daemon.receivers b.event ≢ pos 0
        → notify_property_changed daemon strings p c ≡ (
          record c { pushes = c.pushes ++ (b.event, property2json strings p) ∷ [] },
          push_answer (daemon.receivers b.event),
        )
    notify_subscribed some_result =
        notify_pushes
        ∙ unfold pushed in after_push-answer (daemon.receivers b.event) p.head.name _ some_result

    -- With the tree of events in order and a valid event of the name of the property, a push that
    -- reaches nobody drops the event: the value is pushed, the name is taken out and no other, and
    -- the answer is 1.
    pub notify_dropped :
        InOrder c.events
        → daemon.receivers b.event ≡ pos 0
        → let (c', status) = notify_property_changed daemon strings p c in
          (status ≡ pos 1)
          × (c'.pushes ≡ c.pushes ++ (b.event, property2json strings p) ∷ [])
          × ((n : CString)
              → get_event n c'.events
                ≡ (if is_eq (strcmp n p.head.name) then none else get_event n c.events))
          × (c'.events.dropped ≡ b.event ∷ c.events.dropped)
    unfolding pushed
    notify_dropped s nobody =
        let dropped : notify_property_changed daemon strings p c
            ≡ (record pushed { events = (remove_event p.head.name c.events).0 }, pos 1) =
          notify_pushes ∙ after_push-nobody _ p.head.name pushed nobody in
        rw dropped (elim (remove_event_lem p.head.name c.events s).1 [
          | inl (gone, same) ↦ absurd (cc (gone, there))
          | inr (b', there', status, drops, others) ↦
              let one : b' ≡ b = ground (arith, there) in (refl, refl, others, rw one at drops)
        ])
