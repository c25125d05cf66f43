-- ===== src/Base/Bits.antt =====
-- `&`, `|` and shifted masks, described bit by bit.
mod Step
use Step.{bit_and_step, bit_or_step}
use native.Mathlib.Nat.{
  pow-suc, pow-succ', div-div-eq-div-mul, suc-add, one-le-pow, div-add-mod, mod-lt, mod-eq_of_lt,
  add-mul-mod_self_left,
}
use Prim.Native.Nat.{
  ℕ, zero, suc, ◌+◌, ◌-◌, ◌*◌, ◌/◌, ◌%◌, ◌^◌, ◌≤◌, ◌<◌, bit_and, bit_or, min, max, bit_and-bitwise,
}
use mathlib.Core.Path.{◌≡◌, refl, ap, sym}
use mathlib.Core.Bool.{Bool, true, false, ◌&&◌}
use native.Mathlib.Omega.{arith}
use agl_can_binder.Base.Tests.{ltb, leb, if◌then◌else◌}

-- Bit i of a.
pub test_bit : ℕ → ℕ → ℕ
test_bit a zero = a % 2
test_bit a (suc i) = test_bit (a / 2) i

pub test_bit-bit_and : (i a b : ℕ) → test_bit (bit_and a b) i ≡ min (test_bit a i) (test_bit b i)
unfolding test_bit
test_bit-bit_and zero a b = omega (arith, bit_and_step a b)
test_bit-bit_and (suc i) a b =
    let halved : bit_and a b / 2 ≡ bit_and (a / 2) (b / 2) = omega (arith, bit_and_step a b) in
    rw halved (test_bit-bit_and i (a / 2) (b / 2))

pub test_bit-bit_or : (i a b : ℕ) → test_bit (bit_or a b) i ≡ max (test_bit a i) (test_bit b i)
unfolding test_bit
test_bit-bit_or zero a b = omega (arith, bit_or_step a b)
test_bit-bit_or (suc i) a b =
    let halved : bit_or a b / 2 ≡ bit_or (a / 2) (b / 2) = omega (arith, bit_or_step a b) in
    rw halved (test_bit-bit_or i (a / 2) (b / 2))

pub test_bit-le_one : (i a : ℕ) → test_bit a i ≤ 1
unfolding test_bit
test_bit-le_one zero a = omega arith
test_bit-le_one (suc i) a = test_bit-le_one i (a / 2)

pub test_bit-zero : (i : ℕ) → test_bit 0 i ≡ 0
unfolding test_bit
test_bit-zero zero = refl
test_bit-zero (suc i) = test_bit-zero i

double_shift : (s x : ℕ) → x * 2 ^ suc s ≡ 2 * (x * 2 ^ s)
double_shift s x = omega (arith, ap (λ (t : ℕ). x * t) (pow-suc 2 s))

-- x << s.
pub test_bit-shift_left :
    (s i x : ℕ) → test_bit (x * 2 ^ s) i ≡ (if leb s i then test_bit x (i - s) else 0)
unfolding test_bit
test_bit-shift_left zero i x = ground arith
test_bit-shift_left (suc s) zero x = ground (arith, double_shift s x)
test_bit-shift_left (suc s) (suc i) x =
    let halved : x * 2 ^ suc s / 2 ≡ x * 2 ^ s = omega (arith, double_shift s x) in
    rw halved (ground (arith, test_bit-shift_left s i x))

-- x >> s.
pub test_bit-shift_right : (s i x : ℕ) → test_bit (x / 2 ^ s) i ≡ test_bit x (s + i)
unfolding test_bit
test_bit-shift_right zero i x = ground arith
test_bit-shift_right (suc s) i x =
    let halved : x / 2 ^ suc s ≡ x / 2 / 2 ^ s =
      rw (pow-succ' 2 s, div-div-eq-div-mul x 2 (2 ^ s)) in
    rw (halved, suc-add) (test_bit-shift_right s i (x / 2))

-- x = r + 2 * (q * 2 ^ l), for the remainder r and the quotient q by 2 ^ (l + 1).
split_mod : (l x : ℕ) → x ≡ x % 2 ^ suc l + 2 * (2 ^ l * (x / 2 ^ suc l))
split_mod l x =
    omega (arith, div-add-mod x (2 ^ suc l), ap (λ (t : ℕ). t * (x / 2 ^ suc l)) (pow-suc 2 l))

-- The halves of x % 2 ^ (l + 1).
half-mod : (l x : ℕ) → x % 2 ^ suc l / 2 ≡ x / 2 % 2 ^ l
half-mod l x =
    let r : ℕ = x % 2 ^ suc l in
    let q : ℕ = x / 2 ^ suc l in
    let e : x / 2 ≡ r / 2 + 2 ^ l * q = omega (arith, split_mod l x) in
    let small : r / 2 < 2 ^ l =
      omega (arith, mod-lt x {m = 2 ^ suc l} (one-le-pow (suc l) 2 (omega arith)), pow-suc 2 l) in
    rw (e, add-mul-mod_self_left (r / 2) (2 ^ l) q, mod-eq_of_lt small)

mod-mod-two : (l x : ℕ) → x % 2 ^ suc l % 2 ≡ x % 2
mod-mod-two l x = omega (arith, split_mod l x)

-- x & (2 ^ l - 1), as the remainder.
pub test_bit-mod : (l i x : ℕ) → test_bit (x % 2 ^ l) i ≡ (if ltb i l then test_bit x i else 0)
unfolding test_bit
test_bit-mod zero i x = ground (arith, test_bit-zero i)
test_bit-mod (suc l) zero x = ground (arith, mod-mod-two l x)
test_bit-mod (suc l) (suc i) x = rw half-mod (ground (arith, test_bit-mod l i (x / 2)))

-- (2 ^ n - 1) - m, as the complement of an n-bit word m.
pub test_bit-complement :
    (n i m : ℕ) → m < 2 ^ n → i < n → test_bit (2 ^ n - 1 - m) i ≡ 1 - test_bit m i
unfolding test_bit
test_bit-complement zero i m h k = elim k [ ]
test_bit-complement (suc n) zero m h k = omega (arith, pow-suc 2 n)
test_bit-complement (suc n) (suc i) m h k =
    let halved : (2 ^ suc n - 1 - m) / 2 ≡ 2 ^ n - 1 - m / 2 = omega (arith, pow-suc 2 n) in
    rw halved (test_bit-complement n i (m / 2) (omega (arith, pow-suc 2 n)) (omega arith))

-- Words with the same bits are equal.
pub test_bit_ext :
    (n a b : ℕ) → a < 2 ^ n → b < 2 ^ n → ((i : ℕ) → i < n → test_bit a i ≡ test_bit b i) → a ≡ b
unfolding test_bit
test_bit_ext zero a b p q h = omega arith
test_bit_ext (suc n) a b p q h = omega (
  arith,
  pow-suc 2 n,
  h 0 (omega arith),
  test_bit_ext n (a / 2) (b / 2) (omega (arith, pow-suc 2 n)) (omega (arith, pow-suc 2 n))
      (λ i k. h (suc i) (omega arith)),
)

bit_and-le_fuel : (n a b : ℕ) → a ≤ n → bit_and a b ≤ b
bit_and-le_fuel n zero b h = omega (arith, bit_and-bitwise 0 b)
bit_and-le_fuel zero (suc a) b h = absurd (omega arith)
bit_and-le_fuel (suc n) (suc a) b h =
    omega (arith, bit_and_step (suc a) b, bit_and-le_fuel n (suc a / 2) (b / 2) (omega arith))

pub bit_and-le : (a b : ℕ) → bit_and a b ≤ b
bit_and-le a b = bit_and-le_fuel a a b (omega arith)

-- A mask of l ones is the remainder by 2 ^ l.
pub bit_and_mask : (l x : ℕ) → bit_and x (2 ^ l - 1) ≡ x % 2 ^ l
bit_and_mask zero x = omega (arith, bit_and-le x 0)
bit_and_mask (suc l) x =
    let halved : (2 ^ suc l - 1) / 2 ≡ 2 ^ l - 1 = omega (arith, pow-suc 2 l) in
    omega (
      arith,
      bit_and_step x (2 ^ suc l - 1),
      ap (bit_and (x / 2)) halved,
      bit_and_mask l (x / 2),
      half-mod l x,
      mod-mod-two l x,
      pow-suc 2 l,
      one-le-pow l 2,
    )

pub bit_or-lt : (n a b : ℕ) → a < 2 ^ n → b < 2 ^ n → bit_or a b < 2 ^ n
bit_or-lt zero zero zero p q = omega arith
bit_or-lt zero (suc a) b p q = absurd (omega arith)
bit_or-lt zero zero (suc b) p q = absurd (omega arith)
bit_or-lt (suc n) a b p q = omega (
  arith,
  bit_or_step a b,
  pow-suc 2 n,
  bit_or-lt n (a / 2) (b / 2) (omega (arith, pow-suc 2 n)) (omega (arith, pow-suc 2 n)),
)

-- A number below 2 ^ l has no bit at l or above.
pub test_bit-of_lt : (l i x : ℕ) → x < 2 ^ l → l ≤ i → test_bit x i ≡ 0
test_bit-of_lt l i x h k =
    let e : x % 2 ^ l ≡ x = mod-eq_of_lt h in rw (← e) (ground (arith, test_bit-mod l i x))

pub test_bit-mask : (l i : ℕ) → test_bit (2 ^ l - 1) i ≡ (if ltb i l then 1 else 0)
test_bit-mask l i = ground (
  arith,
  one-le-pow l 2,
  test_bit-complement l i 0,
  test_bit-zero i,
  test_bit-of_lt l i (2 ^ l - 1),
)
