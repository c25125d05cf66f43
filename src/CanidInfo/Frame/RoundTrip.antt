-- ===== src/CanidInfo/Frame/RoundTrip.antt =====
-- `property2canframe` and `canframe2property` as wholes: both are defined where the field fits, a
-- value written into a frame is the value read out of it, and a write leaves all other bits.
use agl_can_binder.Base.{
  ℕ, ◌-◌, ◌/◌, ◌%◌, ◌^◌, ◌<◌, ◌≡◌, refl, ◌≢◌, ap, ◌∙◌, true, false, some, arith, test_bit,
}
use agl_can_binder.CanidInfo.Types.{CanBit, FrameData, Strings, UpdateStat, upstat_error}
use agl_can_binder.CanidInfo.Endian.{canvalue2host, host2canvalue}
use agl_can_binder.CanidInfo.Endian.Laws.{
  IsBytes, canvalue2host-host2canvalue, host2canvalue-IsBytes,
}
use agl_can_binder.CanidInfo.Update.{update_property_value}
use agl_can_binder.CanidInfo.Update.Laws.{
  rejects, update_property_value-error, update_property_value-rejected,
}
use agl_can_binder.CanidInfo.Frame.{
  bit_shift, extract_field, property2canframe, canframe2property, frame_after,
}
use agl_can_binder.CanidInfo.Frame.Laws.{
  Fits, field_bound, in_field, can_mask64_lem, extract_field_lem, inserted, inserted-lt,
  inserted-field, test_bit-inserted, insert_field-inserted,
}

-- For a property whose field fits the frame, the field is read as its bits, which fit 32 bits, and
-- handed to the update of the value.
pub canframe2property_lem :
    (mem : Strings) (v : ℕ) (p : CanBit)
    → Fits p
    → canframe2property mem v p
      ≡ some (update_property_value mem p (v / 2 ^ bit_shift p % 2 ^ p.bit_len))
unfolding canframe2property
canframe2property_lem mem v p h = rw (extract_field_lem v p h) (
    ap some (
      ap (update_property_value mem p)
        (omega (arith, field_bound p.bit_len (v / 2 ^ bit_shift p) h.0))))

frame_after_lem :
    (p : CanBit) (value : ℕ) (d : FrameData) (u : CanBit × UpdateStat)
    → bit_shift p < 64
    → u.1 ≢ upstat_error
    → frame_after p (2 ^ p.bit_len - 1) value d u
      ≡ some (u.0, host2canvalue (inserted p value (canvalue2host d)), u.1)
unfolding frame_after
frame_after_lem p value d (q, upstat_error) h ne = absurd (ne refl)
frame_after_lem p value d (q, _) h ne = rw (insert_field-inserted p value (canvalue2host d) h)

module _ (mem : Strings) (p : CanBit) (d : FrameData) (value : ℕ) (fits : Fits p) where
  -- For a property whose field fits the frame, a refused value leaves the property and the frame as
  -- they were.
  pub property2canframe-rejected :
      rejects p value ≡ true → property2canframe mem p d value ≡ some (p, d, upstat_error)
  unfolding property2canframe frame_after
  property2canframe-rejected r =
      rw (can_mask64_lem p fits.0, update_property_value-rejected mem p value r)

  written : FrameData
  written = host2canvalue (inserted p value (canvalue2host d))

  property2canframe-accepted :
      rejects p value ≡ false
      → property2canframe mem p d value
        ≡ some
            ((update_property_value mem p value).0, written, (update_property_value mem p value).1)
  unfolding property2canframe frame_after written
  property2canframe-accepted r = rw (can_mask64_lem p fits.0) (
      frame_after_lem p value d (update_property_value mem p value) fits.2
        (λ e. cc ((update_property_value-error mem p value).0 e)))

  written-value : canvalue2host written ≡ inserted p value (canvalue2host d)
  unfolding written
  written-value = canvalue2host-host2canvalue _ (inserted-lt p value (canvalue2host d))

  -- For a property whose field fits the frame, an accepted value is written: the new bytes hold the
  -- value in the field, cut to its length, and the old bits outside it; the status is that of the
  -- update of the value.
  pub property2canframe_lem :
      rejects p value ≡ false
      → (d' : FrameData) × (property2canframe mem p d value
          ≡ some ((update_property_value mem p value).0, d', (update_property_value mem p value).1))
        × IsBytes d'
        × (extract_field (canvalue2host d') p ≡ some (value % 2 ^ p.bit_len))
        × ((i : ℕ)
            → i < 64
            → in_field p i ≡ false
            → test_bit (canvalue2host d') i ≡ test_bit (canvalue2host d) i)
  property2canframe_lem r = (
    written,
    property2canframe-accepted r,
    unfold written in host2canvalue-IsBytes (inserted p value (canvalue2host d)),
    rw written-value (
        extract_field_lem (inserted p value (canvalue2host d)) p fits
        ∙ ap some (inserted-field p value (canvalue2host d) fits)),
    λ i h out. rw written-value (ground (arith, test_bit-inserted p value (canvalue2host d) i h)),
  )
