-- ===== src/Prelude/Bits.antt =====
-- Digit recursion for the native bit operations, and single bits of a number.
use Prim.Native.Nat.{
  ℕ, zero, suc, ◌+◌, ◌-◌, ◌*◌, ◌/◌, ◌%◌, ◌^◌, ◌≤◌, ◌<◌, min, max, bit_and, bit_or, digits,
  bit_and-bitwise, bit_or-bitwise,
}
use mathlib.Core.Path.{◌≡◌, refl}
use mathlib.Core.Logic.{◌≢◌}
use native.Mathlib.Nat.{pow-suc, one-le-pow}
use native.Mathlib.Omega.{arith}
use mathlib.Core.Bool.{Bool, true, ◌&&◌}
use another_c_library.Prelude.Tests.{◌==◌, ==→eq}

-- The fuel of `digits` does not matter once it covers the first number.
module _ (z : ℕ → ℕ) (f : ℕ → ℕ → ℕ) where
  digits_enough : (n m a b : ℕ) → a ≤ n → a ≤ m → digits z f n a b ≡ digits z f m a b
  digits_enough zero zero a b p q = refl
  digits_enough zero (suc m) zero b p q = refl
  digits_enough zero (suc m) (suc a) b p q = absurd (omega arith)
  digits_enough (suc n) zero zero b p q = refl
  digits_enough (suc n) zero (suc a) b p q = absurd (omega arith)
  digits_enough (suc n) (suc m) zero b p q = refl
  digits_enough (suc n) (suc m) (suc a) b p q =
      omega (arith, digits_enough n m (suc a / 2) (b / 2) (omega arith) (omega arith))

zero-bit_and : (b : ℕ) → bit_and 0 b ≡ 0
zero-bit_and b = bit_and-bitwise 0 b

zero-bit_or : (b : ℕ) → bit_or 0 b ≡ b
zero-bit_or b = bit_or-bitwise 0 b

-- The lowest digit of a conjunction, and the digits above it.
pub bit_and_low : (a b : ℕ) → bit_and a b ≡ bit_and (a / 2) (b / 2) * 2 + min (a % 2) (b % 2)
bit_and_low zero b = omega (arith, zero-bit_and b, zero-bit_and (b / 2))
bit_and_low (suc a) b = omega (
  arith,
  bit_and-bitwise (suc a) b,
  bit_and-bitwise (suc a / 2) (b / 2),
  digits_enough (λ _. zero) min a (suc a / 2) (suc a / 2) (b / 2) (omega arith) (omega arith),
)

-- The lowest digit of a disjunction, and the digits above it.
pub bit_or_low : (a b : ℕ) → bit_or a b ≡ bit_or (a / 2) (b / 2) * 2 + max (a % 2) (b % 2)
bit_or_low zero b = omega (arith, zero-bit_or b, zero-bit_or (b / 2))
bit_or_low (suc a) b = omega (
  arith,
  bit_or-bitwise (suc a) b,
  bit_or-bitwise (suc a / 2) (b / 2),
  digits_enough (λ c. c) max a (suc a / 2) (suc a / 2) (b / 2) (omega arith) (omega arith),
)

-- Bit `i` of a number, as 0 or 1.
abbrev pub bit : ℕ → ℕ → ℕ
bit n zero = n % 2
bit n (suc i) = bit (n / 2) i

pub bit-le-one : (i n : ℕ) → bit n i ≤ 1
bit-le-one zero n = omega arith
bit-le-one (suc i) n = bit-le-one i (n / 2)

pub bit-zero : (i : ℕ) → bit 0 i ≡ 0
bit-zero zero = refl
bit-zero (suc i) = bit-zero i

pub bit-bit_and : (i a b : ℕ) → bit (bit_and a b) i ≡ min (bit a i) (bit b i)
bit-bit_and zero a b = omega (arith, bit_and_low a b)
bit-bit_and (suc i) a b =
    let half : bit_and a b / 2 ≡ bit_and (a / 2) (b / 2) = omega (arith, bit_and_low a b) in
    rw half (bit-bit_and i (a / 2) (b / 2))

pub bit-bit_or : (i a b : ℕ) → bit (bit_or a b) i ≡ max (bit a i) (bit b i)
bit-bit_or zero a b = omega (arith, bit_or_low a b)
bit-bit_or (suc i) a b =
    let half : bit_or a b / 2 ≡ bit_or (a / 2) (b / 2) = omega (arith, bit_or_low a b) in
    rw half (bit-bit_or i (a / 2) (b / 2))

-- The bits of the complement of a `w`-bit word.
pub bit-complement : (i w n : ℕ) → i < w → n < 2 ^ w → bit (2 ^ w - 1 - n) i ≡ 1 - bit n i
bit-complement i zero n h k = elim h [ ]
bit-complement zero (suc w) n h k = omega (arith, pow-suc 2 w, one-le-pow w 2)
bit-complement (suc i) (suc w) n h k =
    let half : (2 ^ suc w - 1 - n) / 2 ≡ 2 ^ w - 1 - n / 2 =
      omega (arith, pow-suc 2 w, one-le-pow w 2) in
    rw half (bit-complement i w (n / 2) (omega arith) (omega (arith, pow-suc 2 w)))

pub bit-power_self : (k : ℕ) → bit (2 ^ k) k ≡ 1
bit-power_self zero = refl
bit-power_self (suc k) =
    let half : 2 ^ suc k / 2 ≡ 2 ^ k = omega (arith, pow-suc 2 k) in rw half (bit-power_self k)

pub bit-power_ne : (k i : ℕ) → i ≢ k → bit (2 ^ k) i ≡ 0
bit-power_ne zero zero h = absurd (h refl)
bit-power_ne zero (suc i) h = bit-zero i
bit-power_ne (suc k) zero h = omega (arith, pow-suc 2 k)
bit-power_ne (suc k) (suc i) h =
    let half : 2 ^ suc k / 2 ≡ 2 ^ k = omega (arith, pow-suc 2 k) in
    rw half (bit-power_ne k i (omega arith))

-- A number below `2 ^ w` has no bit at or above `w`.
pub bit-high : (w i n : ℕ) → n < 2 ^ w → w ≤ i → bit n i ≡ 0
bit-high zero i n h k = let e : n ≡ 0 = omega arith in rw e (bit-zero i)
bit-high (suc w) zero n h k = elim k [ ]
bit-high (suc w) (suc i) n h k = bit-high w i (n / 2) (omega (arith, pow-suc 2 w)) (omega arith)

-- Two words with the same bits are the same.
pub eq_of_bits : (w a b : ℕ) → a < 2 ^ w → b < 2 ^ w → ((i : ℕ) → i < w → bit a i ≡ bit b i) → a ≡ b
eq_of_bits zero a b p q h = omega arith
eq_of_bits (suc w) a b p q h = omega (
  arith,
  h 0 (omega arith),
  eq_of_bits w (a / 2) (b / 2) (omega (arith, pow-suc 2 w)) (omega (arith, pow-suc 2 w))
      (λ i k. h (suc i) (omega arith)),
)

pub bit_and-lt : (w a b : ℕ) → a < 2 ^ w → bit_and a b < 2 ^ w
bit_and-lt zero a b h = let e : a ≡ 0 = omega arith in rw (e, zero-bit_and b) (omega arith)
bit_and-lt (suc w) a b h =
    omega (
      arith,
      pow-suc 2 w,
      bit_and_low a b,
      bit_and-lt w (a / 2) (b / 2) (omega (arith, pow-suc 2 w)),
    )

pub bit_or-lt : (w a b : ℕ) → a < 2 ^ w → b < 2 ^ w → bit_or a b < 2 ^ w
bit_or-lt zero a b h k = let e : a ≡ 0 = omega arith in rw (e, zero-bit_or b) k
bit_or-lt (suc w) a b h k = omega (
  arith,
  pow-suc 2 w,
  bit_or_low a b,
  bit_or-lt w (a / 2) (b / 2) (omega (arith, pow-suc 2 w)) (omega (arith, pow-suc 2 w)),
)

bit_and-zero_below : (n a : ℕ) → a ≤ n → bit_and a 0 ≡ 0
bit_and-zero_below n zero h = zero-bit_and 0
bit_and-zero_below zero (suc a) h = absurd (omega arith)
bit_and-zero_below (suc n) (suc a) h =
    omega (arith, bit_and_low (suc a) 0, bit_and-zero_below n (suc a / 2) (omega arith))

pub bit_and-zero : (a : ℕ) → bit_and a 0 ≡ 0
bit_and-zero a = bit_and-zero_below a a (omega arith)

bit_and-seven : (a : ℕ) → bit_and a 7 ≡ a % 8
bit_and-seven a = omega (
  arith,
  bit_and_low a 7,
  bit_and_low (a / 2) 3,
  bit_and_low (a / 2 / 2) 1,
  bit_and-zero (a / 2 / 2 / 2),
)

-- The mask of the six low bits takes the remainder.
pub bit_and-63 : (a : ℕ) → bit_and a 63 ≡ a % 64
bit_and-63 a = omega (
  arith,
  bit_and_low a 63,
  bit_and_low (a / 2) 31,
  bit_and_low (a / 2 / 2) 15,
  bit_and-seven (a / 2 / 2 / 2),
)

-- A property of the numbers below `n` by evaluation.
pub all_below : ℕ → (ℕ → Bool) → Bool
all_below zero p = true
all_below (suc n) p = p n && all_below n p

pub all_below-lt : (n : ℕ) (p : ℕ → Bool) (x : ℕ) → all_below n p ≡ true → x < n → p x ≡ true
unfolding all_below
all_below-lt zero p x h k = elim k [ ]
all_below-lt (suc n) p x h k = ground (arith, all_below-lt n p x)

or_80 : all_below 64 (λ x. bit_or x 0x80 == x + 0x80) ≡ true
unfolding all_below
or_80 = refl

or_C0 : all_below 32 (λ x. bit_or x 0xC0 == x + 0xC0) ≡ true
unfolding all_below
or_C0 = refl

or_E0 : all_below 16 (λ x. bit_or x 0xE0 == x + 0xE0) ≡ true
unfolding all_below
or_E0 = refl

or_F0 : all_below 8 (λ x. bit_or x 0xF0 == x + 0xF0) ≡ true
unfolding all_below
or_F0 = refl

-- The marks of the bytes of UTF-8 do not overlap the bits that they are joined to.
pub bit_or-80 : (x : ℕ) → x < 64 → bit_or x 0x80 ≡ x + 0x80
bit_or-80 x h = ==→eq _ _ (all_below-lt 64 _ x or_80 h)

pub bit_or-C0 : (x : ℕ) → x < 32 → bit_or x 0xC0 ≡ x + 0xC0
bit_or-C0 x h = ==→eq _ _ (all_below-lt 32 _ x or_C0 h)

pub bit_or-E0 : (x : ℕ) → x < 16 → bit_or x 0xE0 ≡ x + 0xE0
bit_or-E0 x h = ==→eq _ _ (all_below-lt 16 _ x or_E0 h)

pub bit_or-F0 : (x : ℕ) → x < 8 → bit_or x 0xF0 ≡ x + 0xF0
bit_or-F0 x h = ==→eq _ _ (all_below-lt 8 _ x or_F0 h)
