-- ===== src/CanidInfo/Frame/Names.antt =====
-- `property2canframe` writes the value of a property, and leaves its name.
use agl_can_binder.Base.{ℕ, ◌≡◌, some, arith, inl, inr, Option-cases}
use agl_can_binder.CanidInfo.Types.{
  CanBit, FrameData, Strings, UpdateStat, upstat_error, upstat_no_updated, upstat_updated,
}
use agl_can_binder.CanidInfo.Endian.{canvalue2host}
use agl_can_binder.CanidInfo.Update.{update_property_value}
use agl_can_binder.CanidInfo.Update.Laws.{update_property_value-layout}
use agl_can_binder.CanidInfo.Frame.{can_mask64, insert_field, property2canframe, frame_after}

frame_after-head :
    (p : CanBit) (mask value : ℕ) (d d' : FrameData) (u : CanBit × UpdateStat) (q : CanBit)
    (ret : UpdateStat)
    → frame_after p mask value d u ≡ some (q, d', ret)
    → q ≡ u.0
unfolding frame_after
frame_after-head p mask value d d' (u, upstat_error) q ret h = ground arith
frame_after-head p mask value d d' (u, upstat_no_updated) q ret h =
    elim (Option-cases (insert_field p mask value (canvalue2host d))) [
      | inl undefined ↦ absurd (ground (arith, undefined))
      | inr (x, there) ↦ ground (arith, there)
    ]
frame_after-head p mask value d d' (u, upstat_updated) q ret h =
    elim (Option-cases (insert_field p mask value (canvalue2host d))) [
      | inl undefined ↦ absurd (ground (arith, undefined))
      | inr (x, there) ↦ ground (arith, there)
    ]

-- What is written is the property after the update.
pub property2canframe-head :
    (strings : Strings) (p q : CanBit) (bytes bytes' : FrameData) (v : ℕ) (ret : UpdateStat)
    → property2canframe strings p bytes v ≡ some (q, bytes', ret)
    → q ≡ (update_property_value strings p v).0
unfolding property2canframe
property2canframe-head strings p q bytes bytes' v ret h = elim (Option-cases (can_mask64 p)) [
  | inl undefined ↦ absurd (ground (arith, undefined))
  | inr (mask, there) ↦
      frame_after-head p mask v bytes bytes' (update_property_value strings p v) q ret
        (ground (arith, there))
]

-- Its layout and its name are those from before.
pub property2canframe-layout :
    (strings : Strings) (p q : CanBit) (bytes bytes' : FrameData) (v : ℕ) (ret : UpdateStat)
    → property2canframe strings p bytes v ≡ some (q, bytes', ret)
    → q ≡ record p { cur_value = q.cur_value }
property2canframe-layout strings p q bytes bytes' v ret h =
    rw (property2canframe-head strings p q bytes bytes' v ret h)
      (update_property_value-layout strings p v)
