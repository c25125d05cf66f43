-- ===== src/CanidInfo/Frame/Total.antt =====
-- `property2canframe` is defined where the layout asks for no shift by 64 bits or more.
use agl_can_binder.Base.{ℕ, ◌-◌, ◌*◌, ◌^◌, ◌≤◌, ◌<◌, ◌≡◌, refl, some, arith, bit_and, bit_or, u64}
use agl_can_binder.CanidInfo.Types.{
  CanBit, FrameData, Strings, UpdateStat, upstat_error, upstat_no_updated, upstat_updated,
}
use agl_can_binder.CanidInfo.Endian.{canvalue2host, host2canvalue}
use agl_can_binder.CanidInfo.Update.{update_property_value}
use agl_can_binder.CanidInfo.Frame.{
  bit_shift, shift_left, complement64, insert_field, property2canframe, frame_after,
}
use agl_can_binder.CanidInfo.Frame.Laws.{can_mask64_lem}

insert_field_total :
    (p : CanBit) (mask value v : ℕ)
    → bit_shift p < 64
    → (x : ℕ) × (insert_field p mask value v ≡ some x)
unfolding insert_field shift_left
insert_field_total p mask value v h =
    let shift = bit_shift p in
    let field = u64 (mask * 2 ^ shift) in
    (
      bit_or (bit_and v (complement64 field)) (u64 (bit_and value mask * 2 ^ shift)),
      ground (arith, h),
    )

frame_after_total :
    (p : CanBit) (mask value : ℕ) (d : FrameData) (u : CanBit × UpdateStat)
    → bit_shift p < 64
    → (q : CanBit) × (d' : FrameData) × (ret : UpdateStat) × (frame_after p mask value d u
        ≡ some (q, d', ret))
unfolding frame_after
frame_after_total p mask value d (u, upstat_error) h = (u, d, upstat_error, refl)
frame_after_total p mask value d (u, upstat_no_updated) h =
    let (x, there) = insert_field_total p mask value (canvalue2host d) h in
    (u, host2canvalue x, upstat_no_updated, rw there refl)
frame_after_total p mask value d (u, upstat_updated) h =
    let (x, there) = insert_field_total p mask value (canvalue2host d) h in
    (u, host2canvalue x, upstat_updated, rw there refl)

pub property2canframe_total :
    (strings : Strings) (p : CanBit) (bytes : FrameData) (v : ℕ)
    → p.bit_len ≤ 32
    → bit_shift p < 64
    → (q : CanBit) × (bytes' : FrameData) × (ret : UpdateStat) × (property2canframe strings p bytes
          v
        ≡ some (q, bytes', ret))
unfolding property2canframe
property2canframe_total strings p bytes v short near =
    let mask = 2 ^ p.bit_len - 1 in
    let (q, bytes', ret, there) =
      frame_after_total p mask v bytes (update_property_value strings p v) near in
    (q, bytes', ret, rw (can_mask64_lem p short) there)
