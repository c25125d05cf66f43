-- ===== src/Binding/Verbs/Sends.antt =====
-- A request to set that is defined sends a value of one property, or does nothing.
use agl_can_binder.Base.{
  ℕ, ◌≡◌, ◌⊎◌, Bool, Option, none, some, inl, inr, CString, ℤ, to_u32, arith, Option-cases,
}
use agl_can_binder.CanidInfo.Types.{Strings, CanFrame, CanidInfo}
use agl_can_binder.CanidSearch.Dict.{PropertyRef, get_property_dict, get_canid_dict}
use agl_can_binder.SocketcanRaw.{Socket}
use agl_can_binder.CanSignalEvent.Send.{can_signal_send, update_send_timer}
use agl_can_binder.Binding.Verbs.{Process, Reply, set, set_value}

module _ (strings : Strings) (sends : CanFrame → Bool) where
  -- The process after `can_signal_send` for a value: its dictionaries and its socket are those that
  -- the call leaves, and the timer of one CAN-ID is set anew.
  abbrev pub IsAfterSend : PropertyRef → ℕ → Socket → CanidInfo → Process → Process → Type 0
  IsAfterSend prop w sock' info s s' =
      (can_signal_send strings sends prop w s.dict s.socket ≡ some (s'.dict, sock'))
      × (s' ≡ record s { dict = s'.dict; socket = sock'; timers = update_send_timer info s.timers })

  module _ (strtol : CString → ℤ) (s s' : Process) (reply : Reply) where
    pub set_value-sends :
        (prop : PropertyRef) (v : ℤ)
        → set_value strings sends strtol prop v s ≡ some (s', reply)
        → (sock' : Socket) × (info : CanidInfo) × IsAfterSend prop (to_u32 v) sock' info s s'
    unfolding set_value
    set_value-sends prop v h =
        elim (Option-cases (can_signal_send strings sends prop (to_u32 v) s.dict s.socket)) [
          | inl undefined ↦ absurd (ground (arith, undefined))
          | inr ((d', sock'), sent) ↦ elim (Option-cases (get_canid_dict prop.canid d')) [
            | inl gone ↦ absurd (ground (arith, sent, gone))
            | inr (info, known) ↦
                (sock', info, (ground (arith, sent, known), ground (arith, sent, known)))
          ]
        ]

    -- A request without a name, without a value or for an unknown name changes nothing.
    pub set-sends :
        (name value : Option CString)
        → set strings sends strtol name value s ≡ some (s', reply)
        → (s' ≡ s)
          ⊎ ((prop : PropertyRef) × (w : ℕ) × (sock' : Socket) × (info : CanidInfo) × IsAfterSend
                prop w sock' info s s')
    unfolding set
    set-sends none value h = inl (ground arith)
    set-sends (some name) none h = inl (ground arith)
    set-sends (some name) (some text) h = elim (Option-cases (get_property_dict name s.dict)) [
      | inl unknown ↦ inl (ground (arith, unknown))
      | inr (prop, known) ↦
          let (sock', info, after) = set_value-sends prop (strtol text) (ground (arith, known)) in
          inr (prop, to_u32 (strtol text), sock', info, after)
    ]
