-- ===== src/Binding/Verbs/Sent.antt =====
-- From one node to another: what `get` answers where the frame that `set` sends is received.
use agl_can_binder.Base.{◌≡◌}
use agl_can_binder.CanidInfo.Types.{CanBit, CanidInfo}
use agl_can_binder.CanidSearch.Dict.{Dict}

-- Two properties have their fields at one place.
abbrev pub SamePlace : CanBit → CanBit → Type 0
SamePlace p q = (q.byte_pos ≡ p.byte_pos) × (q.bit_pos ≡ p.bit_pos) × (q.bit_len ≡ p.bit_len)
