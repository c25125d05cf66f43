-- ===== src/CanidInfo/Frame/Laws.antt =====
-- The field of a property in a frame: where it lies, what a write leaves alone, and that a value
-- written is the value read.
use native.Mathlib.Nat.{pow-le-pow_right, one-le-pow, mod-lt}
use agl_can_binder.Base.{
  ℕ, ◌+◌, ◌-◌, ◌*◌, ◌/◌, ◌%◌, ◌^◌, ◌≤◌, ◌<◌, ◌≡◌, Bool, some, ◌&&◌, bit_and, bit_or, leb, ltb,
  if◌then◌else◌, u64, arith, test_bit, test_bit-bit_and, test_bit-bit_or, test_bit-shift_left,
  test_bit-shift_right, test_bit-mod, test_bit-complement, test_bit_ext, bit_and_mask, bit_and-le,
  bit_or-lt, test_bit-mask, test_bit-le_one,
}
use agl_can_binder.CanidInfo.Types.{CanBit}
use agl_can_binder.CanidInfo.Frame.{
  complement64, bit_shift, shift_left, shift_right, can_mask64, insert_field, extract_field,
}

-- The field lies within the frame.
abbrev pub Fits : CanBit → Type 0
Fits p = (p.bit_len ≤ 32) × (bit_shift p + p.bit_len ≤ 64) × (bit_shift p < 64)

-- The bits that the field covers.
abbrev pub in_field : CanBit → ℕ → Bool
in_field p i = leb (bit_shift p) i && ltb (i - bit_shift p) p.bit_len

small_pow : (l : ℕ) → l ≤ 32 → 2 ^ l < 2 ^ 64
small_pow l h = omega (arith, pow-le-pow_right {n = 2} (omega arith) {i = l} {j = 32} h)

pub can_mask64_lem : (p : CanBit) → p.bit_len ≤ 32 → can_mask64 p ≡ some (2 ^ p.bit_len - 1)
unfolding can_mask64 shift_left
can_mask64_lem p h = ground (arith, small_pow p.bit_len h)

-- A field is a 32-bit value.
pub field_bound : (l x : ℕ) → l ≤ 32 → x % 2 ^ l < 2 ^ 32
field_bound l x h = omega (
  arith,
  mod-lt x {m = 2 ^ l} (one-le-pow l 2 (omega arith)),
  pow-le-pow_right {n = 2} (omega arith) {i = l} {j = 32} h,
)

-- Reading a field takes `bit_len` bits from `bit_shift` on.
pub extract_field_lem :
    (v : ℕ) (p : CanBit) → Fits p → extract_field v p ≡ some (v / 2 ^ bit_shift p % 2 ^ p.bit_len)
unfolding extract_field shift_right
extract_field_lem v p h =
    rw (can_mask64_lem p h.0) (ground (arith, bit_and_mask p.bit_len (v / 2 ^ bit_shift p)))

-- A mask or a value, moved to the place of the field and cut at 64 bits.
test_bit-moved :
    (s i x : ℕ)
    → i < 64
    → test_bit (u64 (x * 2 ^ s)) i ≡ (if leb s i then test_bit x (i - s) else 0)
test_bit-moved s i x h = ground (arith, test_bit-mod 64 i (x * 2 ^ s), test_bit-shift_left s i x)

-- What `insert_field` computes, as a number.
pub inserted : CanBit → ℕ → ℕ → ℕ
inserted p value cur =
    bit_or (bit_and cur (complement64 (u64 ((2 ^ p.bit_len - 1) * 2 ^ bit_shift p))))
      (u64 (bit_and value (2 ^ p.bit_len - 1) * 2 ^ bit_shift p))

pub insert_field-inserted :
    (p : CanBit) (value cur : ℕ)
    → bit_shift p < 64
    → insert_field p (2 ^ p.bit_len - 1) value cur ≡ some (inserted p value cur)
unfolding insert_field shift_left inserted
insert_field-inserted p value cur h = ground arith

pub inserted-lt : (p : CanBit) (value cur : ℕ) → inserted p value cur < 2 ^ 64
unfolding inserted
inserted-lt p value cur = bit_or-lt 64 _ _ (omega (arith, bit_and-le cur _)) (omega arith)

-- Inside the field stand the bits of the value, outside those of the old frame.
pub test_bit-inserted :
    (p : CanBit) (value cur i : ℕ)
    → i < 64
    → test_bit (inserted p value cur) i
      ≡ (if in_field p i then test_bit value (i - bit_shift p) else test_bit cur i)
unfolding inserted
test_bit-inserted p value cur i h =
    let s = bit_shift p in
    let m = 2 ^ p.bit_len - 1 in
    let field = u64 (m * 2 ^ s) in
    rw (test_bit-bit_or i (bit_and cur (complement64 field)) (u64 (bit_and value m * 2 ^ s))) (
      ground (
        arith,
        test_bit-bit_and i cur (complement64 field),
        test_bit-complement 64 i field,
        test_bit-moved s i m h,
        test_bit-moved s i (bit_and value m) h,
        bit_and_mask p.bit_len value,
        test_bit-mod p.bit_len (i - s) value,
        test_bit-mask p.bit_len (i - s),
        test_bit-le_one i cur,
      ))

-- The field of the new value is what was inserted, cut to the field's length.
pub inserted-field :
    (p : CanBit) (value cur : ℕ)
    → Fits p
    → inserted p value cur / 2 ^ bit_shift p % 2 ^ p.bit_len ≡ value % 2 ^ p.bit_len
inserted-field p value cur h =
    test_bit_ext p.bit_len _ _ (mod-lt _ positive) (mod-lt _ positive) λ i k. ground (
      arith,
      test_bit-mod p.bit_len i (inserted p value cur / 2 ^ bit_shift p),
      test_bit-mod p.bit_len i value,
      test_bit-shift_right (bit_shift p) i (inserted p value cur),
      test_bit-inserted p value cur (bit_shift p + i),
    )
  where
    positive : 0 < 2 ^ p.bit_len
    positive = one-le-pow p.bit_len 2 (omega arith)
