-- ===== src/CanSignalEvent/Parse/Cases.antt =====
-- What `parse_frame` can have done, if it is defined.
use agl_can_binder.Base.{
  ℕ, ◌≡◌, ◌⊎◌, some, inl, inr, List, arith, ltb, ◌==◌, Option-cases, Bool-cases,
}
use agl_can_binder.CanidInfo.Types.{Strings, Timeval, CanFrame, Property, CanidInfo, can_kind_send}
use agl_can_binder.CanidInfo.Endian.{canvalue2host}
use agl_can_binder.CanidSearch.Dict.{Dict, get_canid_dict, update_canid}
use agl_can_binder.CanSignalEvent.Parse.{can_sff, parse_candata, parse_known, parse_frame}

-- The dictionaries with the frame stored at its CAN-ID.
abbrev pub stored : CanFrame → Dict → Dict
stored frame d = update_canid (can_sff frame.can_id) (λ i. record i { canraw_frame = frame }) d

-- The same with the properties there replaced.
abbrev pub stored_with : CanFrame → List Property → Dict → Dict
stored_with frame k d =
    update_canid (can_sff frame.can_id) (λ i. record i { property = k }) (stored frame d)

module _ {ℓ} {E : Type ℓ} (notify : Property → E → E) (strings : Strings) (frame : CanFrame)
    (t : Timeval) (d d' : Dict) (e e' : E) where
  -- The frame is only stored, or its properties are parsed too.
  abbrev pub IsStored : CanidInfo → Type ℓ
  IsStored info =
      ((d' ≡ stored frame d) × (e' ≡ e))
      ⊎ ((k : List Property) × (parse_candata notify strings info.cycle (canvalue2host frame.bytes)
              t info.property e
            ≡ some (k, e'))
          × (d' ≡ stored_with frame k d))

  parse_known_cases :
      (info : CanidInfo) (status : ℕ)
      → parse_known notify strings (can_sff frame.can_id) frame t info d e ≡ some (status, d', e')
      → IsStored info
  unfolding parse_known
  parse_known_cases info status h = elim (Bool-cases (info.kind == can_kind_send)) [
    | inl send ↦ inl (ground (arith, send), ground (arith, send))
    | inr receive ↦
        let v = canvalue2host frame.bytes in
        elim (Option-cases (parse_candata notify strings info.cycle v t info.property e)) [
          | inl undefined ↦ absurd (ground arith)
          | inr ((k, e1), parsed) ↦ inr (k, ground (arith, parsed), ground (arith, parsed))
        ]
  ]

  -- A frame that is too long or of an unknown CAN-ID changes nothing.
  pub parse_frame_cases :
      (status : ℕ)
      → parse_frame notify strings frame t d e ≡ some (status, d', e')
      → ((d' ≡ d) × (e' ≡ e))
        ⊎ ((info : CanidInfo) × (get_canid_dict (can_sff frame.can_id) d ≡ some info)
            × IsStored info)
  unfolding parse_frame
  parse_frame_cases status h = elim (Bool-cases (ltb 8 frame.can_dlc)) [
    | inl long ↦ inl (ground (arith, long), ground (arith, long))
    | inr short ↦ elim (Option-cases (get_canid_dict (can_sff frame.can_id) d)) [
      | inl unknown ↦ inl (ground (arith, short, unknown), ground (arith, short, unknown))
      | inr (info, known) ↦ inr (info, known, parse_known_cases info status (ground arith))
    ]
  ]
