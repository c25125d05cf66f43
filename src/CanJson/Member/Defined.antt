-- ===== src/CanJson/Member/Defined.antt =====
-- Which entries of the file have a layout that the bus code can read.
use agl_can_binder.Base.{ℕ, ◌≤◌, ◌≡◌, ◌↔◌, ◌⊎◌, inl, inr, none, leb, true, ◌==◌, arith, Bool-cases}
use agl_can_binder.CanidInfo.Types.{Strings, CanBit}
use agl_can_binder.CanidInfo.Frame.{bit_shift, shift_right, extract_field, canframe2property}
use agl_can_binder.CanidInfo.Frame.Laws.{can_mask64_lem}
use agl_can_binder.CanSignalEvent.Ivi.Total.{IsDefined, canframe2property-IsDefined}
use agl_can_binder.CanJson.Member.Laws.{IsLoaded}

canframe2property_past :
    (mem : Strings) (v : ℕ) (p : CanBit)
    → p.bit_len ≤ 32
    → 64 ≤ bit_shift p
    → canframe2property mem v p ≡ none
unfolding canframe2property extract_field shift_right
canframe2property_past mem v p short past =
    let far : leb 64 (bit_shift p) ≡ true = ground arith in
    rw (can_mask64_lem p short) (ground (arith, far))

-- The two layouts within the limits of the file that lead to a shift by 64 bits or more.
abbrev pub IsPast : CanBit → Type 0
IsPast p = (p.byte_pos ≡ 0) ⊎ ((p.byte_pos ≡ 1) × (p.bit_pos ≡ 8))

abbrev Loadable : CanBit → Type 0
Loadable p = (p.byte_pos ≤ 8) × (p.bit_pos ≤ 8)

bit_shift-IsPast : (p : CanBit) → Loadable p → 64 ≤ bit_shift p → IsPast p
unfolding bit_shift
bit_shift-IsPast p h past = elim (Bool-cases (p.byte_pos == 0)) [
  | inl e ↦ inl (ground arith)
  | inr e ↦ inr (ground arith)
]

past_bit_shift : (p : CanBit) → IsPast p → 64 ≤ bit_shift p
unfolding bit_shift
past_bit_shift p (inl e) = omega arith
past_bit_shift p (inr (byte, bit)) = omega arith

pub not_past-IsDefined :
    (p : CanBit) (strings : Strings) → IsLoaded strings p → ¬ IsPast p → IsDefined p
not_past-IsDefined p strings h fine = elim (Bool-cases (leb 64 (bit_shift p))) [
  | inl e ↦ absurd (fine (bit_shift-IsPast p (h.byte_bound, h.bit_bound) (ground arith)))
  | inr e ↦ (h.len_bound, ground arith)
]

-- For an entry with positions and a table as the file may define them, reading its value from a frame
-- is undefined, since it shifts by 64 bits or more, exactly if its byte position is 0, or 1 with the
-- bit position 8.
pub canframe2property-undefined_iff :
    (mem strings : Strings) (v : ℕ) (p : CanBit)
    → IsLoaded strings p
    → (canframe2property mem v p ≡ none) ↔ ((p.byte_pos ≡ 0) ⊎ ((p.byte_pos ≡ 1) × (p.bit_pos ≡ 8)))
canframe2property-undefined_iff mem strings v p h = (
  λ undefined. elim (Bool-cases (leb 64 (bit_shift p))) [
    | inl e ↦ bit_shift-IsPast p (h.byte_bound, h.bit_bound) (ground arith)
    | inr e ↦
        let (q, r, there, good) = canframe2property-IsDefined mem v p (h.len_bound, ground arith) in
        absurd (ground (arith, undefined, there))
  ],
  λ past. canframe2property_past mem v p h.len_bound (past_bit_shift p past),
)
