-- ===== src/Binding/Api/Total.antt =====
-- Every request is answered.
use agl_can_binder.Base.{
  ℕ, suc, All, false, ◌≡◌, refl, Bool, inl, inr, Option, none, some, CString, codes, ℤ, pos, arith,
  Option-cases,
}
use agl_can_binder.CanidInfo.Types.{Strings, CanFrame}
use agl_can_binder.CanidSearch.Dict.{Dict, get_property_dict, get_support_properties_list}
use agl_can_binder.CanidSearch.Dict.Every.{Every}
use agl_can_binder.CanidSearch.Dict.WellFormed.{IsWellFormed}
use agl_can_binder.CanJson.JsonC.{JsonC}
use agl_can_binder.CanJson.Run.{done}
use agl_can_binder.CanJson.Member.Laws.{HasKeys}
use agl_can_binder.SocketcanRaw.{Socket}
use agl_can_binder.CanSignalEvent.Ivi.Total.{PropertyDefined}
use agl_can_binder.CanSignalEvent.Send.{Timers, TimerAnswers}
use agl_can_binder.Binding.Verbs.{Process, Reply, fail, get, list}
use agl_can_binder.Binding.Verbs.Laws.{get_known}
use agl_can_binder.Binding.Subscribe.{Client}
use agl_can_binder.Binding.Service.{ServiceAnswers, Setup, service_init}
use agl_can_binder.Binding.System.{System, Reach, next, setting, subscribing, listing, system_of}
use agl_can_binder.Binding.System.Reachable.{fresh, started-IsCoherent}
use agl_can_binder.Binding.System.Refined.{Reach-names}
use agl_can_binder.Binding.Subscribe.Returns.{
  IsSingle, HasNames, supported-IsSingle, subscribe_total, unsubscribe_total,
}
use agl_can_binder.Binding.System.Running.{set_total}
use agl_can_binder.Binding.System.Total.{reached-IsRunning}
use agl_can_binder.Binding.Api.{
  Verb, get_verb, set_verb, list_verb, subscribe_verb, unsubscribe_verb, Arguments, callback,
}

get_total :
    (strings : Strings) (name : Option CString) (d : Dict)
    → IsWellFormed d
    → (reply : Reply) × (get strings name d ≡ some reply)
unfolding get
get_total strings none d wf = (_, refl)
get_total strings (some name) d wf = elim (Option-cases (get_property_dict name d)) [
  | inl unknown ↦ (fail (codes "Unknown property"), ground (arith, unknown))
  | inr (r, known) ↦
      let (p, named, there, answers) = get_known strings name d r wf known in (_, answers)
]

list_total :
    (granted : Bool) (s : Process)
    → s.tmplists ≡ false
    → (s' : Process) × (reply : Reply) × (list granted s ≡ some (s', reply))
unfolding list
list_total granted s null = elim (Option-cases (list granted s)) [
  | inl undefined ↦ absurd (ground (arith, undefined, null))
  | inr ((s', reply), there) ↦ (s', reply, there)
]

-- The requests whose calls are defined: `list` as long as `tmplists` is NULL, `unsubscribe` without a
-- null for a name, and all others.
abbrev pub IsServed : Verb → Arguments → Process → Type 0
IsServed list_verb args s = s.tmplists ≡ false
IsServed unsubscribe_verb args s = HasNames args.wanted
IsServed _ args s = Unit {0}

-- After a start from `fresh` that returns 0 with no layout that asks for a shift by 64 bits or more.
module _ {J : Type 0} (json : JsonC J) (keys : HasKeys json) (memory : ℕ → Bool)
    (answers : ℕ → TimerAnswers) (strtol : CString → ℤ) (service : ServiceAnswers) (timers : Timers)
    (sock : Socket) (s : Setup)
    (started : service_init json memory answers strtol service (fresh timers sock)
      ≡ done (s, pos 0))
    (layouts : Every PropertyDefined s.loader.dict)
    (no_star : get_property_dict (codes "*") s.loader.dict ≡ none) where
  -- No supported property is called "*" in a state that is reached.
  still-IsSingle :
      (s' : System)
      → Reach s.loader.strings (system_of s) s'
      → All IsSingle (get_support_properties_list s'.process.dict)
  unfolding get_property_dict
  still-IsSingle s' reach =
      let running =
        reached-IsRunning json keys memory answers strtol service timers sock s started layouts s'
          reach in
      let coherent =
        started-IsCoherent json keys memory answers strtol service timers sock s started in
      let names = Reach-names s.loader.strings (system_of s) s' reach coherent in
      supported-IsSingle s'.process.dict running.coherent.sound.well_formed (rw names no_star)

  -- Whatever the configuration and the CAN definition file hold, if no object has a key twice, no
  -- layout asks for a shift by 64 bits or more and no property is called "*": after a start from
  -- empty dictionaries that returns 0, and any sequence of calls, a request for any verb of the table
  -- is answered, on a stack for two calls of `subscribe_signal` or `unsubscribe_signal` or more, and
  -- leads to a state that a sequence of calls reaches; but a `list` after one that had its array, and
  -- an `unsubscribe` with null for a name, are excepted.
  pub callback_total :
      (s' : System)
      → Reach s.loader.strings (system_of s) s'
      → (sends : CanFrame → Bool) (strtol' : CString → ℤ) (stack : ℕ) (memory' : ℕ → Bool)
        (make_event : CString → Option ℕ) (client : Client) (verb : Verb) (args : Arguments)
      → IsServed verb args s'.process
      → (p' : Process) × (reply : Reply) × (callback s.loader.strings sends strtol'
            (suc (suc stack))
            memory'
            make_event
            client
            verb
            args
            s'.process
          ≡ some (p', reply))
        × Reach s.loader.strings (system_of s) (record s' { process = p' })
  unfolding callback
  callback_total s' reach sends strtol' stack memory' make_event client get_verb args ok =
      let running =
        reached-IsRunning json keys memory answers strtol service timers sock s started layouts s'
          reach in
      let (reply, answered) =
        get_total s.loader.strings args.event s'.process.dict running.coherent.sound.well_formed in
      (s'.process, reply, rw answered refl, reach)
  callback_total s' reach sends strtol' stack memory' make_event client set_verb args ok =
      let running =
        reached-IsRunning json keys memory answers strtol service timers sock s started layouts s'
          reach in
      let (p', reply, answered) =
        set_total s.loader.strings sends strtol' args.event args.value s' running in
      (
        p',
        reply,
        answered,
        next reach (setting sends strtol' args.event args.value p' reply answered),
      )
  callback_total s' reach sends strtol' stack memory' make_event client list_verb args ok =
      let (p', reply, answered) = list_total args.array s'.process ok in
      (p', reply, answered, next reach (listing args.array p' reply answered))
  callback_total s' reach sends strtol' stack memory' make_event client subscribe_verb args ok =
      let (p', reply, answered) =
        subscribe_total stack memory' make_event client s.loader.strings args.event s'.process
          (still-IsSingle s' reach) in
      (
        p',
        reply,
        answered,
        next reach
            (subscribing (suc (suc stack)) memory' make_event client args.event p' reply answered),
      )
  callback_total s' reach sends strtol' stack memory' make_event client unsubscribe_verb args ok =
      let (reply, answered) =
        unsubscribe_total stack client args.wanted s'.process (still-IsSingle s' reach) ok in
      (s'.process, reply, rw answered refl, reach)
