-- ===== src/Binding/System/Total.antt =====
-- In every state that can be reached, the calls are defined.

use agl_can_binder.Base.{ℕ, ◌≡◌, Bool, Option, some, List, pos, CString, ℤ, arith}
use agl_can_binder.CanidInfo.Types.{Strings, Timeval, CanFrame}
use agl_can_binder.CanidSearch.Dict.Every.{Every}
use agl_can_binder.CanJson.JsonC.{JsonC}
use agl_can_binder.CanJson.Run.{done}
use agl_can_binder.CanJson.Member.Laws.{HasKeys}
use agl_can_binder.SocketcanRaw.{Socket, Received}
use agl_can_binder.CanSignalEvent.Ivi.Total.{PropertyDefined}
use agl_can_binder.CanSignalEvent.Send.{Timers, TimerAnswers}
use agl_can_binder.Binding.Notify.{Daemon}
use agl_can_binder.Binding.Verbs.{Process, Reply, set}
use agl_can_binder.Binding.Verbs.Listed.{list-state}
use agl_can_binder.Binding.Subscribe.Tied.{subscribe-Serves}
use agl_can_binder.Binding.Service.{ServiceAnswers, Setup, service_init}
use agl_can_binder.Binding.System.{
  System, on_event, Step, arriving, setting, subscribing, listing, repeating, Reach, here, next,
  system_of,
}
use agl_can_binder.Binding.System.Reachable.{Step-IsCoherent, started-IsCoherent, fresh}
use agl_can_binder.Binding.System.Running.{IsRunning, on_event_total, set_total, set-Every}

module _ (strings : Strings) where
  Step-Every :
      {s s' : System} → Step strings s s' → IsRunning s → Every PropertyDefined s'.process.dict
  Step-Every {s} {s'} (arriving daemon revents tstamp readings left h) r =
      let (left', s2, there, layouts) = on_event_total strings daemon revents tstamp readings s r in
      let same : s' ≡ s2 = ground (arith, there) in rw same layouts
  Step-Every {s} (setting sends strtol name value p' reply h) r =
      set-Every strings sends strtol name value s p' reply r h
  Step-Every {s} (subscribing stack memory make_event client event p' reply h) r =
      let (dict, serves) =
        subscribe-Serves stack memory make_event client strings event s.process p' reply
          r.coherent.sound.well_formed h r.coherent.serves in
      rw dict r.layouts
  Step-Every {s} (listing granted p' reply h) r =
      let (t, same) = list-state granted s.process p' reply h in rw same r.layouts
  Step-Every {s} (repeating sends canid info known) r = r.layouts

  Reach-IsRunning : (s s' : System) → Reach strings s s' → IsRunning s → IsRunning s'
  Reach-IsRunning s s' here r = r
  Reach-IsRunning s s' (next {t} reach step) r =
      let running = Reach-IsRunning s t reach r in
      record {
        coherent = Step-IsCoherent strings step running.coherent;
        layouts = Step-Every step running;
      }

-- After a start from `fresh` that returns 0 with no layout that asks for a shift by 64 bits or more.
module _ {J : Type 0} (json : JsonC J) (keys : HasKeys json) (memory : ℕ → Bool)
    (answers : ℕ → TimerAnswers) (strtol : CString → ℤ) (service : ServiceAnswers) (timers : Timers)
    (sock : Socket) (s : Setup)
    (started : service_init json memory answers strtol service (fresh timers sock)
      ≡ done (s, pos 0))
    (layouts : Every PropertyDefined s.loader.dict) where
  -- The state that any sequence of calls leads to.
  pub reached-IsRunning : (s' : System) → Reach s.loader.strings (system_of s) s' → IsRunning s'
  reached-IsRunning s' reach = Reach-IsRunning s.loader.strings (system_of s) s' reach (record {
    coherent = started-IsCoherent json keys memory answers strtol service timers sock s started;
    layouts = layouts;
  })

  -- Whatever the configuration and the CAN definition file hold, if no object has a key twice and no
  -- layout asks for a shift by 64 bits or more: after a start from empty dictionaries that returns 0,
  -- and any sequence of calls, the next call returns, be it `on_event` for whatever the socket
  -- delivers or `set` for whatever the client asks for.
  pub reached_total :
      (s' : System)
      → Reach s.loader.strings (system_of s) s'
      → (daemon : Daemon) (revents : ℕ) (t : Timeval) (readings : List Received)
        (sends : CanFrame → Bool) (strtol' : CString → ℤ) (name value : Option CString)
      → ((left : List Received) × (s'' : System) × (on_event s.loader.strings daemon revents t
              readings s'
            ≡ some (left, s'')))
        × ((p' : Process) × (reply : Reply) × (set s.loader.strings sends strtol' name value
                s'.process
              ≡ some (p', reply)))
  reached_total s' reach daemon revents t readings sends strtol' name value =
      let running = reached-IsRunning s' reach in
      let (left, s'', returns, kept) =
        on_event_total s.loader.strings daemon revents t readings s' running in
      ((left, s'', returns), set_total s.loader.strings sends strtol' name value s' running)
