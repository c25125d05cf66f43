-- ===== src/CanidInfo/Endian/Laws.antt =====
-- The two conversions between a frame's bytes and the 64-bit value undo each other.
use agl_can_binder.Base.{ℕ, ◌<◌, ◌^◌, ◌≡◌, arith}
use agl_can_binder.CanidInfo.Types.{FrameData}
use agl_can_binder.CanidInfo.Endian.{canvalue2host, host2canvalue}

-- Each of the eight is a byte.
pub record IsBytes (f : FrameData) : Type 0 where
  pub b0 : f.d0 < 2 ^ 8
  pub b1 : f.d1 < 2 ^ 8
  pub b2 : f.d2 < 2 ^ 8
  pub b3 : f.d3 < 2 ^ 8
  pub b4 : f.d4 < 2 ^ 8
  pub b5 : f.d5 < 2 ^ 8
  pub b6 : f.d6 < 2 ^ 8
  pub b7 : f.d7 < 2 ^ 8

-- A 64-bit value comes back from the frame.
pub canvalue2host-host2canvalue : (v : ℕ) → v < 2 ^ 64 → canvalue2host (host2canvalue v) ≡ v
unfolding canvalue2host host2canvalue
canvalue2host-host2canvalue v h = omega arith

-- The bytes of a frame come back from the value.
pub host2canvalue-canvalue2host : (f : FrameData) → IsBytes f → host2canvalue (canvalue2host f) ≡ f
unfolding canvalue2host host2canvalue
host2canvalue-canvalue2host f h = ground arith

pub host2canvalue-IsBytes : (v : ℕ) → IsBytes (host2canvalue v)
unfolding host2canvalue
host2canvalue-IsBytes v = omega arith

pub canvalue2host-lt : (f : FrameData) → IsBytes f → canvalue2host f < 2 ^ 64
unfolding canvalue2host
canvalue2host-lt f h = omega arith
