-- ===== src/CanidInfo/Endian.antt =====
-- src/canid_info.c: `canvalue2host` and `host2canvalue`. The bytes of a frame are big-endian, and
-- the host is little-endian, as both functions take it to be: byte 7 of the frame is byte 0 of the
-- 64-bit value.
pub mod Laws
use agl_can_binder.Base.{ℕ, ◌+◌, ◌*◌, ◌/◌, ◌^◌, u8}
use agl_can_binder.CanidInfo.Types.{FrameData}

unfoldable pub canvalue2host : FrameData → ℕ
canvalue2host data' =
    d7
    + d6 * 2 ^ 8
    + d5 * 2 ^ 16
    + d4 * 2 ^ 24
    + d3 * 2 ^ 32
    + d2 * 2 ^ 40
    + d1 * 2 ^ 48
    + d0 * 2 ^ 56
  where
    open data' use {d0, d1, d2, d3, d4, d5, d6, d7}

pub host2canvalue : ℕ → FrameData
host2canvalue v = record {
  d0 = u8 (v / 2 ^ 56);
  d1 = u8 (v / 2 ^ 48);
  d2 = u8 (v / 2 ^ 40);
  d3 = u8 (v / 2 ^ 32);
  d4 = u8 (v / 2 ^ 24);
  d5 = u8 (v / 2 ^ 16);
  d6 = u8 (v / 2 ^ 8);
  d7 = u8 v;
}
