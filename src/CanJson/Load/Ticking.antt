-- ===== src/CanJson/Load/Ticking.antt =====
-- The timers that loading a file starts.
use agl_can_binder.Base.{
  ℕ, ◌≡◌, ◌∙◌, ap, Bool, true, pos, negsuc, if◌then◌else◌, not, ◌||◌, Option, some, List, [], ◌∷◌,
  CString, ℤ, All, arith, Option-cases, Bool-cases, inl, inr, bit_and, ◌==◌,
}
use agl_can_binder.CanidInfo.Types.{CanidInfo, can_kind_send}
use agl_can_binder.CanidSearch.Dict.{get_canid_dict}
use agl_can_binder.SocketcanRaw.{is_negative}
use agl_can_binder.CanSignalEvent.Send.{
  Timers, TimerAnswers, same_fd, created, settime, update_send_timer, add_send_timer,
}
use agl_can_binder.CanJson.JsonC.{JsonC}
use agl_can_binder.CanJson.Run.{>>=-eq-done}
use agl_can_binder.CanJson.Load.{Loader, add_property_mapping, start_timer, add_caninfo}
use agl_can_binder.CanJson.Load.File.{can_define_init}
use agl_can_binder.CanJson.Load.Keeps.{Keeps, parse_caninfo-Keeps, can_define_init-Keeps}

-- Every timer expires after a second, and then every second.
abbrev pub Armed : Timers → Type 0
Armed timers = (fd : ℤ) (v : ℕ × ℕ) → timers fd ≡ some v → v ≡ (1, 1)

-- Every watched descriptor is such a timer.
abbrev pub Ticks : Timers → List ℤ → Type 0
Ticks timers watched = All (λ fd. timers fd ≡ some (1, 1)) watched

abbrev pub IsTicking : Loader → Type 0
IsTicking s = Armed s.timers × Ticks s.timers s.watched

same_fd_refl : (fd : ℤ) → same_fd fd fd ≡ true
same_fd_refl (pos n) = ground arith
same_fd_refl (negsuc n) = ground arith

-- A timer that is made and started has its second, and the others stay.
started_timer :
    (info : CanidInfo) (timers : Timers) (fd : ℤ)
    → update_send_timer info (created info.timerfd timers) fd
      ≡ (if same_fd info.timerfd fd then some (1, 1) else timers fd)
unfolding update_send_timer settime
started_timer info timers fd = elim (Bool-cases (same_fd info.timerfd fd)) [
  | inl same ↦ ground (arith, same)
  | inr other ↦ ground (arith, other)
]

started_timer_itself :
    (info : CanidInfo) (timers : Timers)
    → update_send_timer info (created info.timerfd timers) info.timerfd ≡ some (1, 1)
started_timer_itself info timers =
    started_timer info timers info.timerfd
    ∙ ap (λ b. if b then some (1, 1) else timers info.timerfd) (same_fd_refl info.timerfd)

module _ (info : CanidInfo) (timers : Timers) where
  abbrev timers_after : Timers
  timers_after = update_send_timer info (created info.timerfd timers)

  started-Armed : Armed timers → Armed timers_after
  started-Armed armed fd v h = elim (Bool-cases (same_fd info.timerfd fd)) [
    | inl same ↦ ground (arith, started_timer info timers fd, same)
    | inr other ↦ armed fd v (ground (arith, started_timer info timers fd, other))
  ]

  started-Ticks : (l : List ℤ) → Ticks timers l → Ticks timers_after l
  started-Ticks [] ticks = tt
  started-Ticks (fd ∷ l) ticks =
      (ground (arith, started_timer info timers fd, ticks.0), started-Ticks l ticks.1)

add_send_timer-IsTicking :
    (answers : TimerAnswers) (info : CanidInfo) (timers : Timers) (watched : List ℤ)
    → Armed timers
    → Ticks timers watched
    → let (info', timers', watched') = add_send_timer answers info timers watched in
      Armed timers' × Ticks timers' watched'
unfolding add_send_timer update_send_timer
add_send_timer-IsTicking answers info timers watched armed ticks =
    let info' : CanidInfo = record info { timerfd = answers.timerfd } in
    let armed' = started-Armed info' timers armed in
    let ticks' = started-Ticks info' timers watched ticks in
    let made = started_timer_itself info' timers in
    elim (Bool-cases (is_negative answers.timerfd)) [
      | inl failed ↦ rw failed (armed, ticks)
      | inr ok ↦ elim (Bool-cases (is_negative answers.add_io)) [
        | inl refused ↦ rw (ok, refused) (armed', ticks')
        | inr added ↦ rw (ok, added) (armed', (made, ticks'))
      ]
    ]

module _ {J : Type 0} (json : JsonC J) (memory : ℕ → Bool) (answers : ℕ → TimerAnswers) where
  start_timer-IsTicking :
      (kind canid err : ℕ) → Keeps IsTicking (start_timer json memory answers kind canid err)
  unfolding start_timer
  start_timer-IsTicking kind canid err s s' n (armed, ticks) h =
      elim (Option-cases (get_canid_dict canid s.dict)) [
        | inl gone ↦ let same : s' ≡ s = ground (arith, gone) in rw same (armed, ticks)
        | inr (info, found) ↦
            elim (Bool-cases (not (err == 0) || bit_and kind can_kind_send == 0)) [
              | inl idle ↦ let same : s' ≡ s = ground (arith, idle) in rw same (armed, ticks)
              | inr sends ↦
                  let timer = add_send_timer (answers canid) info s.timers s.watched in
                  let (same_timers, same_watched) : (s'.timers ≡ timer.1) × (s'.watched ≡ timer.2) =
                    ground (arith, sends, found) in
                  rw (same_timers, same_watched)
                    (add_send_timer-IsTicking (answers canid) info s.timers s.watched armed ticks)
            ]
      ]

  add_caninfo-IsTicking :
      (kind : ℕ) (info : CanidInfo) (l : List (Option J))
      → Keeps IsTicking (add_caninfo json memory answers kind info l)
  unfolding add_caninfo
  add_caninfo-IsTicking kind info l s s' n ticking h =
      let ((ps, strings', err), mapped, later) =
        >>=-eq-done (add_property_mapping json kind l s.strings) _ h in
      start_timer-IsTicking kind info.canid _ _ s' n ticking later

  -- Loading a file leaves every timer armed, and watches only timers.
  pub can_define_init-IsTicking :
      (strtol : CString → ℤ) (fname : Option CString)
      → Keeps IsTicking (can_define_init json memory answers strtol fname)
  can_define_init-IsTicking strtol fname =
      can_define_init-Keeps IsTicking json memory answers strtol
        (parse_caninfo-Keeps IsTicking json memory answers (λ s ticking. ticking)
          add_caninfo-IsTicking)
        fname
