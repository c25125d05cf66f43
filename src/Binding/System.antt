-- ===== src/Binding/System.antt =====
-- src/af-canivi-binding.c: the binding as a whole. `on_event`, and the calls that the daemon and the
-- event loop make, one at a time and in any order, as a step relation. `get` and `unsubscribe` change
-- no state, and are no steps.
pub mod Laws
pub mod Reachable
pub mod Refined
pub mod Running
pub mod Total
pub mod Timers
use agl_can_binder.Base.{
  ℕ, ◌≡◌, Bool, true, false, Option, some, List, [], CString, ℤ, bit_and, ◌==◌, ◌>>=◌,
}
use agl_can_binder.CanidInfo.Types.{Strings, Timeval, CanFrame, CanidInfo}
use agl_can_binder.CanidSearch.Dict.{get_canid_dict}
use agl_can_binder.CanJson.Value.{Json}
use agl_can_binder.SocketcanRaw.{Received}
use agl_can_binder.CanSignalEvent.Parse.{can_signal_read}
use agl_can_binder.CanSignalEvent.Send.{on_timer_event}
use agl_can_binder.Binding.Notify.{Daemon, Clients}
use agl_can_binder.Binding.Delivery.{notifier}
use agl_can_binder.Binding.Verbs.{Process, Reply, set, list}
use agl_can_binder.Binding.Subscribe.{Client, subscribe}
use agl_can_binder.Binding.Service.{Setup}

-- The state that the calls share, and the pushes made to clients, oldest first.
pub record System : Type 0 where
  pub process : Process
  pub pushes : List (ℕ × Option Json)

abbrev pub clients : System → Clients
clients s = record { events = s.process.events; pushes = s.pushes }

-- EPOLLIN of <sys/epoll.h>
abbrev pub epollin : ℕ
epollin = 1

module _ (strings : Strings) where
  -- The return value is 0, as that of `can_signal_read`; errors and hang-ups are only logged.
  unfoldable pub on_event :
      Daemon → ℕ → Timeval → List Received → System → Option (List Received × System)
  on_event daemon revents tstamp readings s = elim (bit_and revents epollin == 0) [
    | true ↦ some (readings, s)
    | false ↦ do
      (left, d', c') ←
          can_signal_read (notifier daemon strings) strings tstamp readings s.process.dict
            (clients s)
      some (
        left,
        record s {
          process = record s.process { dict = d'; events = c'.events };
          pushes = c'.pushes;
        },
      )
  ]

  -- One call, with the answers that it gets: frames that have arrived, the verbs `set`,
  -- `subscribe` and `list`, the timer of a CAN-ID.
  pub data Step : System → System → Type 0 where
    arriving :
        {s s' : System} (daemon : Daemon) (revents : ℕ) (tstamp : Timeval)
        (readings left : List Received)
        → on_event daemon revents tstamp readings s ≡ some (left, s')
        → Step s s'
    setting :
        {s : System} (sends : CanFrame → Bool) (strtol : CString → ℤ) (name value : Option CString)
        (p' : Process) (reply : Reply)
        → set strings sends strtol name value s.process ≡ some (p', reply)
        → Step s (record s { process = p' })
    subscribing :
        {s : System} (stack : ℕ) (memory : ℕ → Bool) (make_event : CString → Option ℕ)
        (client : Client) (event : Option CString) (p' : Process) (reply : Reply)
        → subscribe stack memory make_event client strings event s.process ≡ some (p', reply)
        → Step s (record s { process = p' })
    listing :
        {s : System} (granted : Bool) (p' : Process) (reply : Reply)
        → list granted s.process ≡ some (p', reply)
        → Step s (record s { process = p' })
    repeating :
        {s : System} (sends : CanFrame → Bool) (canid : ℕ) (info : CanidInfo)
        → get_canid_dict canid s.process.dict ≡ some info
        → Step s (record s {
          process = record s.process {
            socket = on_timer_event strings sends info s.process.socket;
          };
        })

  pub data Reach (s : System) : System → Type 0 where
    here : Reach s s
    next : {t u : System} → Reach s t → Step t u → Reach s u

-- The system after the start of the service: no events, no pushes.
abbrev pub system_of : Setup → System
system_of s = record {
  process = record {
    dict = s.loader.dict;
    events = record { bind_event_root = []; subscribed_canids = []; dropped = []; requests = 0 };
    socket = s.socket;
    timers = s.loader.timers;
    tmplists = false;
  };
  pushes = [];
}
