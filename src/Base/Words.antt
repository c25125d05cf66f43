-- ===== src/Base/Words.antt =====
-- C's unsigned conversions, and the promotion of the signed narrow types to `int`. An `int` is
-- its 32-bit pattern.
use Prim.Native.Nat.{ℕ, ◌+◌, ◌-◌, ◌%◌, ◌^◌}
use agl_can_binder.Base.Tests.{ltb, if◌then◌else◌}

abbrev pub u8 : ℕ → ℕ
u8 n = n % 2 ^ 8

abbrev pub u16 : ℕ → ℕ
u16 n = n % 2 ^ 16

abbrev pub u32 : ℕ → ℕ
u32 n = n % 2 ^ 32

abbrev pub u64 : ℕ → ℕ
u64 n = n % 2 ^ 64

-- (int)(int8_t)v
abbrev pub promote_i8 : ℕ → ℕ
promote_i8 v = if ltb (u8 v) (2 ^ 7) then u8 v else u8 v + (2 ^ 32 - 2 ^ 8)

-- (int)(int16_t)v
abbrev pub promote_i16 : ℕ → ℕ
promote_i16 v = if ltb (u16 v) (2 ^ 15) then u16 v else u16 v + (2 ^ 32 - 2 ^ 16)
