-- ===== src/CanidInfo/Value.antt =====
-- src/canid_info.c: `propertyValue_int`. The result is a C int; -1 is the answer for a type that has
-- no integer value.
use agl_can_binder.Base.{ℕ, u8, u16, u32, promote_i8, promote_i16, ℤ, pos, negsuc, signed32}
use agl_can_binder.CanidInfo.Types.{
  VarType, void_t, int8_t, int16_t, int_t, int32_t, int64_t, uint8_t, uint16_t, uint_t, uint32_t,
  uint64_t, string_t, bool_t, array_t, enable1_t, CanBit,
}

-- The `switch`, on the type and the union.
unfoldable pub read_int : VarType → ℕ → ℤ
read_int int8_t w = signed32 (promote_i8 w)
read_int int16_t w = signed32 (promote_i16 w)
read_int void_t w = signed32 (u32 w)
read_int int_t w = signed32 (u32 w)
read_int int32_t w = signed32 (u32 w)
read_int uint8_t w = pos (u8 w)
read_int uint16_t w = pos (u16 w)
read_int uint_t w = signed32 (u32 w)
read_int uint32_t w = signed32 (u32 w)
read_int bool_t w = pos (u8 w)
read_int enable1_t w = signed32 (u32 w)
read_int string_t w = negsuc 0
read_int array_t w = negsuc 0
read_int uint64_t w = negsuc 0
read_int int64_t w = negsuc 0

unfoldable pub property_value_int : CanBit → ℤ
unfolding read_int
property_value_int p = read_int p.var_type p.cur_value
