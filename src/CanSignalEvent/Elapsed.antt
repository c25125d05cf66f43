-- ===== src/CanSignalEvent/Elapsed.antt =====
-- src/can_signal_event.c: `elaps_ms`.
use agl_can_binder.Base.{ℕ, ◌+◌, ◌*◌, ◌/◌, ◌%◌, ◌^◌, ◌≤◌, ◌<◌, ◌≡◌, sub_ℕ, to_u32, arith}
use agl_can_binder.CanidInfo.Types.{Timeval}

-- A time in milliseconds.
abbrev pub millis : Timeval → ℕ
millis t = t.tv_sec * 1000 + t.tv_usec / 1000

-- The difference is signed, and is cut to 32 bits.
unfoldable pub elaps_ms : Timeval → Timeval → ℕ
elaps_ms old new = to_u32 (sub_ℕ (millis new) (millis old))

-- Adding the elapsed time to the old one gives the new one modulo 2 ^ 32, also when the clock was
-- set back.
pub elaps_ms_mod :
    (old new : Timeval) → (millis old + elaps_ms old new) % 2 ^ 32 ≡ millis new % 2 ^ 32
unfolding elaps_ms
elaps_ms_mod old new = ground arith

-- The elapsed time is exact when the clock ran forwards for less than 2 ^ 32 ms.
pub elaps_ms_exact :
    (old new : Timeval)
    → millis old ≤ millis new
    → millis new < millis old + 2 ^ 32
    → millis old + elaps_ms old new ≡ millis new
unfolding elaps_ms
elaps_ms_exact old new h k = ground arith
