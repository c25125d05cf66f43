-- ===== src/Binding/System/Laws.antt =====
-- What the calls keep: notifications of clients, readings of the socket, values that are sent.
use agl_can_binder.Base.{
  ℕ, ◌≡◌, refl, ◌∙◌, inl, inr, some, List, [], ◌∷◌, ◌++◌, pos, negsuc, CString, ℤ, arith, bit_and,
  ◌==◌, Option-cases, Bool-cases,
}
use agl_can_binder.CanidInfo.Types.{Strings, Timeval, Property}
use agl_can_binder.CanidSearch.Dict.{Dict, get_property_dict}
use agl_can_binder.CanidSearch.Dict.Every.{Every}
use agl_can_binder.BindEvent.{Events, get_event}
use agl_can_binder.BindEvent.Tied.{IsTied, Shrinks, Shrinks-IsTied, remove_event-Shrinks}
use agl_can_binder.CanJson.Value.{property2json}
use agl_can_binder.SocketcanRaw.{Socket, Received}
use agl_can_binder.CanSignalEvent.Parse.{can_signal_read}
use agl_can_binder.CanSignalEvent.Parse.Follows.{
  Anything, Every-Anything, IsRelated, can_signal_read-Follows,
}
use agl_can_binder.CanSignalEvent.Parse.Sound.{IsSound}
use agl_can_binder.Binding.Notify.{Daemon, Clients, after_push, push_event, notify_property_changed}
use agl_can_binder.Binding.Delivery.{notifier}
use agl_can_binder.Binding.Verbs.{Process}
use agl_can_binder.Binding.Subscribe.Tied.{Serves}
use agl_can_binder.Binding.System.{System, clients, epollin, on_event}

-- Notifications remove events, and nothing else.
abbrev Removes : Clients → Clients → Type 0
Removes c c' = Shrinks c.events c'.events

Shrinks-refl : (e : Events) → Shrinks e e
Shrinks-refl e = ((λ s. s), (λ n b s h. h), refl)

Shrinks-trans : (e e' e'' : Events) → Shrinks e e' → Shrinks e' e'' → Shrinks e e''
Shrinks-trans e e' e'' (order, fewer, same) (order', fewer', same') =
    (λ s. order' (order s), λ n b s h. fewer n b s (fewer' n b (order s) h), same' ∙ same)

after_push-Removes : (n : ℤ) (name : CString) (c : Clients) → Removes c (after_push n name c).0
unfolding after_push
after_push-Removes (negsuc n) name c = Shrinks-refl c.events
after_push-Removes (pos n) name c = elim (Bool-cases (n == 0)) [
  | inl e ↦ rw e (remove_event-Shrinks name c.events)
  | inr e ↦ rw e (Shrinks-refl c.events)
]

notifier-Removes :
    (daemon : Daemon) (strings : Strings) (p : Property) (c : Clients)
    → Removes c (notifier daemon strings p c)
unfolding notifier notify_property_changed push_event
notifier-Removes daemon strings p c = elim (Option-cases (get_event p.head.name c.events)) [
  | inl gone ↦
      let same : notifier daemon strings p c ≡ c = ground (arith, gone) in
      rw same (Shrinks-refl c.events)
  | inr (b, there) ↦ elim (Bool-cases (daemon.is_valid b.event)) [
    | inr invalid ↦
        let same : notifier daemon strings p c ≡ c = ground (arith, there, invalid) in
        rw same (Shrinks-refl c.events)
    | inl valid ↦
        let pushed : Clients = record c {
          pushes = c.pushes ++ (b.event, property2json strings p) ∷ [];
        } in
        let told : notifier daemon strings p c
            ≡ (after_push (daemon.receivers b.event) p.head.name pushed).0 =
          ground (arith, there, valid) in
        rw told (after_push-Removes (daemon.receivers b.event) p.head.name pushed)
  ]
]

notifier-IsRelated :
    (daemon : Daemon) (strings : Strings)
    → IsRelated (notifier daemon strings) strings Anything Anything Removes
notifier-IsRelated daemon strings = record {
  none_made = λ c. Shrinks-refl c.events;
  one_more = λ c c' c''. Shrinks-trans c.events c'.events c''.events;
  made = λ p c q. notifier-Removes daemon strings p c;
  grows = λ p cycle v t o k h. tt;
  tells = λ p cycle v t o k h n. tt;
}

-- Sound dictionaries, events that are tied to them, an open descriptor, and a filter that the frames
-- of every event pass.
pub record IsCoherent (s : System) : Type 0 where
  pub sound : IsSound s.process.dict
  pub serves : Serves s.process

-- Events tied to dictionaries are tied to others that have the same names.
IsTied-names :
    (d d' : Dict) (e : Events) → d'.property_root ≡ d.property_root → IsTied d e → IsTied d' e
unfolding get_property_dict
IsTied-names d d' e same t = record {
  in_order = t.in_order;
  tied = λ n b h. rw same (t.tied n b h);
}

shrunk-Serves :
    (s : Process) (d' : Dict) (e' : Events)
    → d'.property_root ≡ s.dict.property_root
    → Shrinks s.events e'
    → Serves s
    → Serves (record s { dict = d'; events = e' })
shrunk-Serves s d' e' names removes (tied, opened, passing) = (
  IsTied-names s.dict d' e' names (Shrinks-IsTied s.dict s.events e' removes tied),
  opened,
  λ room n b there. passing (rw removes.2 at room) n b (removes.1 n b tied.in_order there),
)

-- A socket with the descriptor and the filters from before serves as before.
pub resent-Serves :
    (s : Process) (d' : Dict) (sock' : Socket)
    → d'.property_root ≡ s.dict.property_root
    → sock'.canfd ≡ s.socket.canfd
    → sock'.filters ≡ s.socket.filters
    → Serves s
    → Serves (record s { dict = d'; socket = sock' })
resent-Serves s d' sock' names fd filters (tied, opened, passing) = (
  IsTied-names s.dict d' s.events names tied,
  rw fd opened,
  λ room n b there. rw filters (passing room n b there),
)

module _ (strings : Strings) where
  -- A reading that is defined keeps sound dictionaries sound, their names and the socket, and does to
  -- the clients what a sequence of notifications does.
  pub on_event-Follows :
      (daemon : Daemon) (K Q : Property → Type 0) (R : Clients → Clients → Type 0) (revents : ℕ)
      (t : Timeval) (readings left : List Received) (s s' : System)
      → IsRelated (notifier daemon strings) strings K Q R
      → IsSound s.process.dict
      → Every K s.process.dict
      → on_event strings daemon revents t readings s ≡ some (left, s')
      → IsSound s'.process.dict
        × (s'.process.dict.property_root ≡ s.process.dict.property_root)
        × (s'.process.socket ≡ s.process.socket)
        × R (clients s) (clients s')
        × Every K s'.process.dict
  unfolding on_event
  on_event-Follows daemon K Q R revents t readings left s s' rel sound every h =
      elim (Bool-cases (bit_and revents epollin == 0)) [
        | inl idle ↦
            let same : s' ≡ s = ground (arith, idle) in
            rw same (sound, refl, refl, rel.none_made (clients s), every)
        | inr ready ↦
            let notify = notifier daemon strings in
            elim (Option-cases
              (can_signal_read notify strings t readings s.process.dict (clients s))) [
                | inl undefined ↦ absurd (ground (arith, ready, undefined))
                | inr ((left', d', c'), read) ↦
                    let same : s' ≡ record s {
                      process = record s.process { dict = d'; events = c'.events };
                      pushes = c'.pushes;
                    } =
                      ground (arith, ready, read) in
                    let (sound', (names, related, every')) =
                      can_signal_read-Follows notify strings K Q R rel t readings left'
                        s.process.dict d' (clients s) c' sound every read in
                    rw same (sound', names, refl, related, every')
              ]
      ]

  pub on_event-IsCoherent :
      (daemon : Daemon) (revents : ℕ) (t : Timeval) (readings left : List Received) (s s' : System)
      → IsCoherent s
      → on_event strings daemon revents t readings s ≡ some (left, s')
      → IsCoherent s'
  on_event-IsCoherent daemon revents t readings left s s' c h =
      let (sound, names, socket, removes, every) =
        on_event-Follows daemon Anything Anything Removes revents t readings left s s'
          (notifier-IsRelated daemon strings) c.sound (Every-Anything s.process.dict) h in
      let (tied, opened, passing) =
        shrunk-Serves s.process s'.process.dict s'.process.events names removes c.serves in
      record { sound = sound; serves = rw socket (tied, opened, passing) }
