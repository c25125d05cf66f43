-- ===== src/Binding/System/Timers.antt =====
-- The timers after every sequence of calls.
use agl_can_binder.Base.{
  ℕ, ◌≡◌, refl, ap, ◌∙◌, bit_and, ◌==◌, Bool, inl, inr, Option, none, some, List, ◌∷◌, CString, ℤ,
  pos, arith, Option-cases, Bool-cases,
}
use mathlib.Core.Path.{fun_ext}
use agl_can_binder.CanidInfo.Types.{Strings, CanFrame, CanidInfo}
use agl_can_binder.CanJson.JsonC.{JsonC}
use agl_can_binder.CanJson.Run.{done}
use agl_can_binder.CanJson.Load.{Loader}
use agl_can_binder.CanJson.Load.Ticking.{Armed, Ticks, IsTicking, can_define_init-IsTicking}
use agl_can_binder.SocketcanRaw.{Socket}
use agl_can_binder.CanSignalEvent.Send.{Timers, TimerAnswers, settime, update_send_timer}
use agl_can_binder.BindEvent.{Events}
use agl_can_binder.CanJson.Value.{Json}
use agl_can_binder.CanSignalEvent.Parse.{can_signal_read}
use agl_can_binder.Binding.Delivery.{notifier}
use agl_can_binder.Binding.Subscribe.Keeps.{subscribe-cases}
use agl_can_binder.Binding.Verbs.Listed.{list-state}
use agl_can_binder.Binding.Verbs.Sends.{set-sends}
use agl_can_binder.Binding.Verbs.{Process, Reply, set}
use agl_can_binder.Binding.Subscribe.{answer_subscription}
use agl_can_binder.Binding.Service.{ServiceAnswers, Setup, service_init}
use agl_can_binder.Binding.Service.Laws.{service_init-Started}
use agl_can_binder.Binding.System.{
  System, clients, epollin, on_event, Step, arriving, setting, subscribing, listing, repeating,
  Reach, here, next, system_of,
}
use agl_can_binder.Binding.System.Reachable.{fresh}

-- Starting armed timers anew changes nothing.
update_send_timer-Armed :
    (info : CanidInfo) (timers : Timers) → Armed timers → update_send_timer info timers ≡ timers
unfolding update_send_timer settime
update_send_timer-Armed info timers armed = fun_ext λ fd. elim (Option-cases (timers fd)) [
  | inl gone ↦ ground (arith, gone)
  | inr (v, there) ↦ ground (arith, there, armed fd v there)
]

module _ (strings : Strings) where
  set-timers :
      (sends : CanFrame → Bool) (strtol : CString → ℤ) (name value : Option CString)
      (s p' : Process) (reply : Reply)
      → Armed s.timers
      → set strings sends strtol name value s ≡ some (p', reply)
      → p'.timers ≡ s.timers
  set-timers sends strtol name value s p' reply armed h =
      elim (set-sends strings sends strtol s p' reply name value h) [
        | inl same ↦ ap (λ (q : Process). q.timers) same
        | inr (prop, w, sock', info, (sent, after)) ↦
            ap (λ (q : Process). q.timers) after ∙ update_send_timer-Armed info s.timers armed
      ]

  answered-timers :
      (e : Events) (apply : List (CString × Option Json)) (err : ℕ) (s : Process)
      → (answer_subscription (e, apply, err) s).0.timers ≡ s.timers
  unfolding answer_subscription
  answered-timers e apply err s = refl

  Step-timers :
      {s s' : System}
      → Step strings s s'
      → Armed s.process.timers
      → s'.process.timers ≡ s.process.timers
  unfolding on_event
  Step-timers {s} {s'} (arriving daemon revents tstamp readings left h) armed =
      elim (Bool-cases (bit_and revents epollin == 0)) [
        | inl idle ↦ let same : s' ≡ s = ground (arith, idle) in rw same refl
        | inr ready ↦
            elim (Option-cases (
              can_signal_read (notifier daemon strings) strings tstamp readings s.process.dict
                (clients s))) [
                  | inl undefined ↦ absurd (ground (arith, ready, undefined))
                  | inr ((left', d', c'), read) ↦ ground (arith, ready, read)
                ]
      ]
  Step-timers {s} (setting sends strtol name value p' reply h) armed =
      set-timers sends strtol name value s.process p' reply armed h
  Step-timers {s} (subscribing stack memory make_event client event p' reply h) armed =
      elim (subscribe-cases stack memory make_event client strings event s.process p' reply h) [
        | inl same ↦ ap (λ (q : Process). q.timers) same
        | inr (name, (e', apply, err), signalled, same) ↦
            ap (λ (q : Process). q.timers) same ∙ answered-timers e' apply err s.process
      ]
  Step-timers {s} (listing granted p' reply h) armed =
      let (t, same) = list-state granted s.process p' reply h in ap (λ (q : Process). q.timers) same
  Step-timers {s} (repeating sends canid info known) armed = refl

  Reach-timers :
      (s s' : System)
      → Reach strings s s'
      → Armed s.process.timers
      → s'.process.timers ≡ s.process.timers
  Reach-timers s s' here armed = refl
  Reach-timers s s' (next {t} r step) armed =
      let same = Reach-timers s t r armed in Step-timers step (rw same armed) ∙ same

-- After a start that returns 0, from a state in which no timer is set.
module _ {J : Type 0} (json : JsonC J) (memory : ℕ → Bool) (answers : ℕ → TimerAnswers)
    (strtol : CString → ℤ) (service : ServiceAnswers) (sock : Socket) (s : Setup)
    (started : service_init json memory answers strtol service (fresh (λ fd. none) sock)
      ≡ done (s, pos 0)) where
  -- After every sequence of calls that are defined, every timer expires each second, and the event
  -- loop watches the socket and beside it only such timers: no call makes another timer, stops one,
  -- or changes its period.
  pub reached_timers :
      (s' : System)
      → Reach s.loader.strings (system_of s) s'
      → Armed s'.process.timers
        × ((l : List ℤ) × (s.loader.watched ≡ s.socket.canfd ∷ l) × Ticks s'.process.timers l)
        × (s'.process.timers ≡ s.loader.timers)
  reached_timers s' r =
      let (s1, (loads, kept), (loader, opened, sending, filters, closed)) =
        service_init-Started json memory answers strtol IsTicking
          (can_define_init-IsTicking json memory answers strtol) service (fresh (λ fd. none) sock) s
          started in
      let (armed, ticks) = loads ((λ fd v h. absurd (cc)), tt) in
      let timers = ap (λ (l : Loader). l.timers) loader in
      let armed' : Armed s.loader.timers = rw timers armed in
      let same = Reach-timers s.loader.strings (system_of s) s' r armed' in
      (
        rw same armed',
        (s1.loader.watched, ap (λ (l : Loader). l.watched) loader, rw same (rw timers ticks)),
        same,
      )
