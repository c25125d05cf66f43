-- ===== src/CanSignalEvent/Parse/Drained.antt =====
-- Calls of `can_signal_read` empty the socket.
use agl_can_binder.Base.{
  ℕ, zero, suc, ◌+◌, ◌≤◌, ◌≡◌, inl, inr, some, List, [], ◌∷◌, length, arith, Option-cases,
}
use agl_can_binder.CanidInfo.Types.{Strings, Timeval, Property}
use agl_can_binder.CanidSearch.Dict.{Dict}
use agl_can_binder.SocketcanRaw.{Received, socketcan_read}
use agl_can_binder.CanSignalEvent.Parse.{parse_frame, read_loop, can_signal_read}
use agl_can_binder.CanSignalEvent.Parse.Laws.{Reading-cases}
use agl_can_binder.CanSignalEvent.Parse.Total.{IsReadable, can_signal_read_total}

module _ {E : Type 0} (notify : Property → E → E) (strings : Strings) where
  read_loop-shrinks :
      (n : ℕ) (tm : Timeval) (readings left : List Received) (d d' : Dict) (e e' : E)
      → read_loop notify strings n tm readings d e ≡ some (left, d', e')
      → length left ≤ length readings
  unfolding read_loop
  read_loop-shrinks n tm [] left d d' e e' h = ground arith
  read_loop-shrinks n tm (r ∷ later) left d d' e e' h = elim (Reading-cases (socketcan_read r tm)) [
    | inr stopped ↦ ground arith
    | inl (frame, t, got) ↦ elim (Option-cases (parse_frame notify strings frame t d e)) [
      | inl undefined ↦ absurd (ground arith)
      | inr ((status, d1, e1), parsed) ↦
          ground (arith, read_loop-shrinks (n + 1) t later left d1 d' e1 e')
    ]
  ]

  -- A call takes what is first.
  can_signal_read-takes :
      (tm : Timeval) (r : Received) (later left : List Received) (d d' : Dict) (e e' : E)
      → can_signal_read notify strings tm (r ∷ later) d e ≡ some (left, d', e')
      → length left ≤ length later
  unfolding can_signal_read read_loop
  can_signal_read-takes tm r later left d d' e e' h = elim (Reading-cases (socketcan_read r tm)) [
    | inr stopped ↦ ground arith
    | inl (frame, t, got) ↦ elim (Option-cases (parse_frame notify strings frame t d e)) [
      | inl undefined ↦ absurd (ground arith)
      | inr ((status, d1, e1), parsed) ↦
          ground (arith, read_loop-shrinks 1 t later left d1 d' e1 e')
    ]
  ]

  -- Calls, one after the other, with their number; `tm` is what the memory holds at each.
  pub data Calls : ℕ → List Received → Dict → E → List Received → Dict → E → Type 0 where
    no_call : {readings : List Received} {d : Dict} {e : E} → Calls 0 readings d e readings d e
    one_call :
        {n : ℕ} {readings left last : List Received} {d d' d'' : Dict} {e e' e'' : E} (tm : Timeval)
        → can_signal_read notify strings tm readings d e ≡ some (left, d', e')
        → Calls n left d' e' last d'' e''
        → Calls (suc n) readings d e last d'' e''

  drained_within :
      (fuel : ℕ) (tm : Timeval) (readings : List Received) (d : Dict) (e : E)
      → length readings ≤ fuel
      → IsReadable d
      → (n : ℕ) × (d' : Dict) × (e' : E) × (n ≤ fuel) × Calls n readings d e [] d' e'
  drained_within fuel tm [] d e bound h = (0, d, e, omega arith, no_call)
  drained_within zero tm (r ∷ later) d e bound h = absurd (omega (arith, bound))
  drained_within (suc fuel) tm (r ∷ later) d e bound h =
      let (left, d1, e1, read, h1) = can_signal_read_total notify strings tm (r ∷ later) d e h in
      let fewer : length left ≤ fuel =
        omega (arith, can_signal_read-takes tm r later left d d1 e e1 read, bound) in
      let (n, d', e', calls, rest) = drained_within fuel tm left d1 e1 fewer h1 in
      (suc n, d', e', omega (arith, calls), one_call tm read rest)

  -- With sound dictionaries without a layout that asks for a shift by 64 bits or more, whatever waits
  -- in the socket is used up by a number of calls that all return, no more than there are readings.
  pub can_signal_read_drains :
      (tm : Timeval) (readings : List Received) (d : Dict) (e : E)
      → IsReadable d
      → (n : ℕ) × (d' : Dict) × (e' : E) × (n ≤ length readings) × Calls n readings d e [] d' e'
  can_signal_read_drains tm readings d e h =
      drained_within (length readings) tm readings d e (omega arith) h
