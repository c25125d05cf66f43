-- ===== src/CanidInfo/Update.antt =====
-- src/canid_info.c: `_updatePropertyValue`. An `int` is its 32-bit pattern; a comparison of two
-- narrow values is made on what both promote to.
pub mod Laws
pub mod Quiet
use agl_can_binder.Base.{
  ℕ, ◌+◌, ◌*◌, ◌/◌, ◌^◌, Bool, not, Option, none, some, List, get_or, codes, str_eq, ltb, leb, ◌==◌,
  if◌then◌else◌, u8, u16, u32, u64, promote_i8, promote_i16,
}
use agl_can_binder.CanidInfo.Types.{
  VarType, void_t, int8_t, int16_t, int_t, int32_t, int64_t, uint8_t, uint16_t, uint_t, uint32_t,
  uint64_t, string_t, bool_t, array_t, enable1_t, UpdateStat, upstat_error, upstat_no_updated,
  upstat_updated, Strings, text_at, CanBit,
}

-- A write to a member of the union leaves the bytes above it.
abbrev pub write8 : ℕ → ℕ → ℕ
write8 w v = w / 2 ^ 8 * 2 ^ 8 + u8 v

abbrev pub write16 : ℕ → ℕ → ℕ
write16 w v = w / 2 ^ 16 * 2 ^ 16 + u16 v

abbrev pub write32 : ℕ → ℕ → ℕ
write32 w v = w / 2 ^ 32 * 2 ^ 32 + u32 v

-- !!x
abbrev pub truth : ℕ → ℕ
truth x = if x == 0 then 0 else 1

-- `if (current != given) { current = …; update = …; }`
unfoldable pub assign : CanBit → Bool → ℕ → UpdateStat → CanBit × UpdateStat
assign p differs w update =
    if differs then (record p { cur_value = w }, update) else (p, upstat_no_updated)

-- The branches of the `switch` without a conversion table.
unfoldable pub update_plain : CanBit → VarType → ℕ → CanBit × UpdateStat
unfolding assign
update_plain p int8_t x =
    assign p (not (promote_i8 p.cur_value == promote_i8 x)) (write8 p.cur_value x) upstat_updated
update_plain p int16_t x =
    assign p (not (promote_i16 p.cur_value == promote_i16 x)) (write16 p.cur_value x) upstat_updated
update_plain p void_t x =
    assign p (not (u32 p.cur_value == u32 x)) (write32 p.cur_value x) upstat_updated
update_plain p int_t x =
    assign p (not (u32 p.cur_value == u32 x)) (write32 p.cur_value x) upstat_updated
update_plain p int32_t x =
    assign p (not (u32 p.cur_value == u32 x)) (write32 p.cur_value x) upstat_updated
-- The value is read as uint8_t and compared with (int8_t)x.
update_plain p uint8_t x =
    assign p (not (u8 p.cur_value == promote_i8 x)) (write8 p.cur_value x) upstat_updated
update_plain p uint16_t x =
    assign p (not (u16 p.cur_value == u16 x)) (write16 p.cur_value x) upstat_updated
update_plain p uint_t x =
    assign p (not (u32 p.cur_value == u32 x)) (write32 p.cur_value x) upstat_updated
update_plain p uint32_t x =
    assign p (not (u32 p.cur_value == u32 x)) (write32 p.cur_value x) upstat_updated
update_plain p bool_t x =
    assign p (not (u8 p.cur_value == truth x)) (write8 p.cur_value (truth x)) upstat_updated
update_plain p string_t x = (p, upstat_error)
update_plain p enable1_t x = (p, upstat_error)
update_plain p array_t x = (p, upstat_no_updated)
update_plain p uint64_t x = (p, upstat_no_updated)
update_plain p int64_t x = (p, upstat_no_updated)

-- The branches with one; `c` is conv[x].
unfoldable pub update_converted : Strings → CanBit → VarType → ℕ → ℕ → CanBit × UpdateStat
unfolding assign
update_converted mem p int8_t c x =
    assign p (not (promote_i8 p.cur_value == promote_i8 c)) (write8 p.cur_value c) upstat_updated
update_converted mem p int16_t c x =
    assign p (not (promote_i16 p.cur_value == promote_i16 c)) (write16 p.cur_value c) upstat_updated
update_converted mem p void_t c x =
    assign p (not (u32 p.cur_value == u32 c)) (write32 p.cur_value c) upstat_updated
update_converted mem p int_t c x =
    assign p (not (u32 p.cur_value == u32 c)) (write32 p.cur_value c) upstat_updated
update_converted mem p int32_t c x =
    assign p (not (u32 p.cur_value == u32 c)) (write32 p.cur_value c) upstat_updated
update_converted mem p uint8_t c x =
    assign p (not (u8 p.cur_value == promote_i8 c)) (write8 p.cur_value c) upstat_updated
-- Here the value is compared with (int16_t)conv[x].
update_converted mem p uint16_t c x =
    assign p (not (u16 p.cur_value == promote_i16 c)) (write16 p.cur_value c) upstat_updated
update_converted mem p uint_t c x =
    assign p (not (u32 p.cur_value == u32 c)) (write32 p.cur_value c) upstat_updated
update_converted mem p uint32_t c x =
    assign p (not (u32 p.cur_value == u32 c)) (write32 p.cur_value c) upstat_updated
-- The stored truth value is compared with conv[x] itself.
update_converted mem p bool_t c x =
    assign p (not (u8 p.cur_value == u32 c)) (write8 p.cur_value (truth (u32 c))) upstat_updated
update_converted mem p string_t c x =
    assign p (not (u64 p.cur_value == u64 c)) (u64 c)
      (if str_eq (text_at mem c) (codes "NOTSET") then upstat_no_updated else upstat_updated)
update_converted mem p enable1_t c x =
    assign p (not (u32 p.cur_value == u32 c)) (write32 p.cur_value c)
      (if x == 0 then upstat_no_updated else upstat_updated)
update_converted mem p array_t c x = (p, upstat_no_updated)
update_converted mem p uint64_t c x = (p, upstat_no_updated)
update_converted mem p int64_t c x = (p, upstat_no_updated)

-- conv[x] is read below `nconv` only, which is the table's length.
unfoldable pub update_property_value : Strings → CanBit → ℕ → CanBit × UpdateStat
update_property_value mem p v = elim p.dataconv [
  | none ↦ update_plain p p.var_type v
  | some conv ↦
      if leb p.nconv v
      then (p, upstat_error)
      else update_converted mem p p.var_type (get_or conv v 0) v
]
