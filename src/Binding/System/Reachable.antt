-- ===== src/Binding/System/Reachable.antt =====
-- What holds of the binding after every sequence of calls.
use agl_can_binder.Base.{
  ℕ, ◌≤◌, ◌⊎◌, leb, Bool-cases, ◌≡◌, refl, ap, Bool, true, false, inl, inr, Option, some, [],
  length, pos, CString, ℤ, arith,
}
use agl_can_binder.CanidInfo.Types.{Strings, CanFrame, Property, CanidInfo}
use agl_can_binder.CanidSearch.Tree.{tfind}
use agl_can_binder.CanidSearch.Dict.{empty, get_canid_dict, deref}
use agl_can_binder.CanidSearch.Dict.WellFormed.{deref-get_property_dict}
use agl_can_binder.BindEvent.{BindEvent, support_canid_max, get_event}
use agl_can_binder.CanJson.JsonC.{JsonC}
use agl_can_binder.CanJson.Run.{done}
use agl_can_binder.CanJson.Member.Laws.{HasKeys}
use agl_can_binder.CanJson.Load.Ready.{IsReady}
use agl_can_binder.SocketcanRaw.{Socket, is_negative}
use agl_can_binder.SocketcanRaw.Laws.{passes}
use agl_can_binder.CanSignalEvent.Parse.Sound.{IsSound}
use agl_can_binder.CanSignalEvent.Send.{Timers, TimerAnswers, on_timer_event}
use agl_can_binder.CanSignalEvent.Send.Sound.{socketcan_send-kept, can_signal_send-Sends}
use agl_can_binder.Binding.Verbs.Listed.{list-state}
use agl_can_binder.Binding.Verbs.Sends.{set-sends}
use agl_can_binder.Binding.Verbs.{Process, Reply, set}
use agl_can_binder.Binding.Subscribe.Tied.{Serves, subscribe-Serves}
use agl_can_binder.Binding.Service.{ServiceAnswers, Setup, service_init}
use agl_can_binder.Binding.Service.Laws.{service_init_started}
use agl_can_binder.Binding.System.{
  System, Step, arriving, setting, subscribing, listing, repeating, Reach, here, next, system_of,
}
use agl_can_binder.Binding.System.Laws.{IsCoherent, on_event-IsCoherent, resent-Serves}

module _ (strings : Strings) where
  pub set-IsCoherent :
      (sends : CanFrame → Bool) (strtol : CString → ℤ) (name value : Option CString)
      (s p' : Process) (reply : Reply)
      → IsSound s.dict
      → Serves s
      → set strings sends strtol name value s ≡ some (p', reply)
      → IsSound p'.dict
        × Serves p'
        × (p'.dict.property_root ≡ s.dict.property_root)
        × (p'.events ≡ s.events)
  set-IsCoherent sends strtol name value s p' reply sound serves h =
      elim (set-sends strings sends strtol s p' reply name value h) [
        | inl same ↦ rw same (sound, serves, refl, refl)
        | inr (prop, w, sock', info, (sent, after)) ↦
            let (sound', names, fd, filters) =
              can_signal_send-Sends strings sends prop w s.dict p'.dict s.socket sock' sound sent in
            (
              sound',
              rw after (resent-Serves s p'.dict sock' names fd filters serves),
              names,
              ap (λ (q : Process). q.events) after,
            )
      ]

  on_timer_event-Serves :
      (sends : CanFrame → Bool) (info : CanidInfo) (s : Process)
      → Serves s
      → Serves (record s { socket = on_timer_event strings sends info s.socket })
  unfolding on_timer_event
  on_timer_event-Serves sends info s serves =
      let (fd, filters) = socketcan_send-kept sends info.canraw_frame s.socket in
      resent-Serves s s.dict (on_timer_event strings sends info s.socket) refl fd filters serves

  pub Step-IsCoherent : {s s' : System} → Step strings s s' → IsCoherent s → IsCoherent s'
  Step-IsCoherent {s} {s'} (arriving daemon revents tstamp readings left h) c =
      on_event-IsCoherent strings daemon revents tstamp readings left s s' c h
  Step-IsCoherent {s} (setting sends strtol name value p' reply h) c =
      let (sound, serves, names, events) =
        set-IsCoherent sends strtol name value s.process p' reply c.sound c.serves h in
      record { sound = sound; serves = serves }
  Step-IsCoherent {s} (subscribing stack memory make_event client event p' reply h) c =
      let (dict, serves) =
        subscribe-Serves stack memory make_event client strings event s.process p' reply
          c.sound.well_formed h c.serves in
      record { sound = rw dict c.sound; serves = serves }
  Step-IsCoherent {s} (listing granted p' reply h) c =
      let (t, same) = list-state granted s.process p' reply h in
      record { sound = rw same c.sound; serves = rw same c.serves }
  Step-IsCoherent {s} (repeating sends canid info known) c = record {
    sound = c.sound;
    serves = on_timer_event-Serves sends info s.process c.serves;
  }

  -- Whatever calls are made, in whatever order and with whatever answers, a coherent binding stays
  -- coherent.
  pub Reach-IsCoherent : (s s' : System) → Reach strings s s' → IsCoherent s → IsCoherent s'
  Reach-IsCoherent s s' here c = c
  Reach-IsCoherent s s' (next {t} r step) c = Step-IsCoherent step (Reach-IsCoherent s t r c)

-- Before the start: empty dictionaries, no strings, no watched descriptors.
abbrev pub fresh : Timers → Socket → Setup
fresh timers sock = record {
  loader = record { dict = empty; strings = []; timers = timers; watched = [] };
  socket = sock;
}

empty-IsSound : IsSound empty
unfolding get_canid_dict tfind
empty-IsSound = record {
  well_formed = record {
    canids_in_order = tt;
    names_in_order = tt;
    resolves = tt;
    listed = (tt, omega arith);
  };
  applied = λ c info h. absurd (cc);
}

-- After a start from `fresh` that returns 0.
module _ {J : Type 0} (json : JsonC J) (keys : HasKeys json) (memory : ℕ → Bool)
    (answers : ℕ → TimerAnswers) (strtol : CString → ℤ) (service : ServiceAnswers) (timers : Timers)
    (sock : Socket) (s : Setup)
    (started : service_init json memory answers strtol service (fresh timers sock)
      ≡ done (s, pos 0)) where
  pub started-IsCoherent : IsCoherent (system_of s)
  unfolding get_event get_canid_dict tfind
  started-IsCoherent =
      let empty_ready : IsReady (fresh timers sock).loader = record {
        sound = empty-IsSound;
        loaded = λ c info h. absurd (cc);
      } in
      let (loaded, watched, opened, sending, filters, closed) =
        service_init_started json keys memory answers strtol service (fresh timers sock) s
          empty_ready started in
      record {
        sound = loaded.sound;
        serves = (
          record { in_order = tt; tied = λ n b h. absurd (cc) },
          opened,
          λ room n b there. absurd (cc),
        );
      }

  -- Whatever the configuration and the CAN definition file hold, if no object has a key twice: after a
  -- start from empty dictionaries that returns 0, and any sequence of calls that are defined, the
  -- dictionaries are sound, the socket is open, and an event that is found under a name points to a
  -- property of that name; frames of the CAN-ID of that property pass the filter of the socket, or
  -- else the list of the filter is full.
  pub reached_event :
      (s' : System) (n : CString) (b : BindEvent)
      → Reach s.loader.strings (system_of s) s'
      → get_event n s'.process.events ≡ some b
      → IsSound s'.process.dict
        × (is_negative s'.process.socket.canfd ≡ false)
        × ((p : Property) × (deref b.raw_info s'.process.dict ≡ some p) × (p.head.name ≡ n))
        × ((support_canid_max ≤ length s'.process.events.subscribed_canids)
            ⊎ (passes b.raw_info.canid s'.process.socket.filters ≡ true))
  reached_event s' n b r there =
      let c = Reach-IsCoherent s.loader.strings (system_of s) s' r started-IsCoherent in
      let (tied, opened, passing) = c.serves in
      let known = (tied.tied n b there).1 in
      let full = leb support_canid_max (length s'.process.events.subscribed_canids) in
      (
        c.sound,
        opened,
        deref-get_property_dict n s'.process.dict b.raw_info c.sound.well_formed known,
        elim (Bool-cases full) [
          | inl e ↦ inl (ground arith)
          | inr e ↦ inr (passing (ground arith) n b there)
        ],
      )
