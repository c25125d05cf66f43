-- ===== src/CanidInfo/Frame.antt =====
-- src/canid_info.c: `property2canframe` and `canframe2property`. `none` means that a shift by 64 bits
-- or more is executed, whose result C leaves undefined.
pub mod Laws
pub mod Names
pub mod Total
pub mod RoundTrip
use agl_can_binder.Base.{
  ℕ, ◌+◌, ◌-◌, ◌*◌, ◌/◌, ◌^◌, Option, none, some, bit_and, bit_or, leb, if◌then◌else◌, u32, u64,
  ◌>>=◌,
}
use agl_can_binder.CanidInfo.Types.{
  UpdateStat, upstat_error, upstat_no_updated, upstat_updated, Strings, CanBit, FrameData,
}
use agl_can_binder.CanidInfo.Endian.{canvalue2host, host2canvalue}
use agl_can_binder.CanidInfo.Update.{update_property_value}

-- `byte_pos` is at most 8 (`add_propertyMember`), so the difference is exact.
unfoldable pub bit_shift : CanBit → ℕ
bit_shift p = (8 - p.byte_pos) * 8 + p.bit_pos

-- Shifts of a 64-bit value.
unfoldable pub shift_left : ℕ → ℕ → Option ℕ
shift_left v n = if leb 64 n then none else some (u64 (v * 2 ^ n))

unfoldable pub shift_right : ℕ → ℕ → Option ℕ
shift_right v n = if leb 64 n then none else some (v / 2 ^ n)

-- (1ULL << bit_len) - 1; the shifted 1 is not 0, so the difference is exact.
unfoldable pub can_mask64 : CanBit → Option ℕ
can_mask64 p = do bit ← shift_left 1 p.bit_len; some (bit - 1)

-- ~v
abbrev pub complement64 : ℕ → ℕ
complement64 v = 2 ^ 64 - 1 - v

-- The 64-bit value of the frame with the field of the property set.
pub insert_field : CanBit → ℕ → ℕ → ℕ → Option ℕ
insert_field p mask value can_curvalue = do
  can_v64 ← shift_left (bit_and value mask) (bit_shift p)
  field ← shift_left mask (bit_shift p)
  some (bit_or (bit_and can_curvalue (complement64 field)) can_v64)

-- The property, the bytes of the frame and the status after the call.
frame_after :
    CanBit → ℕ → ℕ → FrameData → CanBit × UpdateStat → Option (CanBit × FrameData × UpdateStat)
frame_after p mask value data' (p', upstat_error) = some (p', data', upstat_error)
frame_after p mask value data' (p', update) = do
  can_curvalue ← insert_field p mask value (canvalue2host data')
  some (p', host2canvalue can_curvalue, update)

pub property2canframe : Strings → CanBit → FrameData → ℕ → Option (CanBit × FrameData × UpdateStat)
unfolding frame_after
property2canframe mem p data' value = do
  mask ← can_mask64 p
  frame_after p mask value data' (update_property_value mem p value)

-- The field of the property in a 64-bit value.
unfoldable pub extract_field : ℕ → CanBit → Option ℕ
extract_field can_v64 p = do
  mask ← can_mask64 p
  v ← shift_right can_v64 (bit_shift p)
  some (bit_and v mask)

unfoldable pub canframe2property : Strings → ℕ → CanBit → Option (CanBit × UpdateStat)
canframe2property mem can_v64 p = do
  v ← extract_field can_v64 p
  some (update_property_value mem p (u32 v))
