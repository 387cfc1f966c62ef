-- ===== src/Bits/Flag.antt =====
-- One binary digit of a number, and what `&`, `|` and `^` make of it.
use dan.Prelude.{
  ℕ, zero, suc, ◌+◌, ◌*◌, ◌/◌, ◌%◌, ◌^◌, ◌≤◌, ◌<◌, min, max, bit_and, bit_or, bit_xor, ◌≡◌, refl,
  arith, ap, ◌∙◌,
}
use native.Mathlib.Nat.{pow-suc}
use dan.Bits.Step.{bit_or_halves, bit_and_halves, bit_xor_halves, zero-bit_and, zero-bit_or}

-- Bit `k` of a number, by halving.
abbrev pub flag : ℕ → ℕ → ℕ
flag zero a = a % 2
flag (suc k) a = flag k (a / 2)

pub flag-le : (k a : ℕ) → flag k a ≤ 1
flag-le zero a = omega arith
flag-le (suc k) a = flag-le k (a / 2)

-- The halves of a result are the results of the halves.
bit_or-half : (a b : ℕ) → bit_or a b / 2 ≡ bit_or (a / 2) (b / 2)
bit_or-half a b = omega (arith, bit_or_halves a b)

bit_and-half : (a b : ℕ) → bit_and a b / 2 ≡ bit_and (a / 2) (b / 2)
bit_and-half a b = omega (arith, bit_and_halves a b)

bit_xor-half : (a b : ℕ) → bit_xor a b / 2 ≡ bit_xor (a / 2) (b / 2)
bit_xor-half a b = omega (arith, bit_xor_halves a b)

pub flag-bit_or : (k a b : ℕ) → flag k (bit_or a b) ≡ max (flag k a) (flag k b)
flag-bit_or zero a b = omega (arith, bit_or_halves a b)
flag-bit_or (suc k) a b = rw bit_or-half (flag-bit_or k (a / 2) (b / 2))

pub flag-bit_and : (k a b : ℕ) → flag k (bit_and a b) ≡ min (flag k a) (flag k b)
flag-bit_and zero a b = omega (arith, bit_and_halves a b)
flag-bit_and (suc k) a b = rw bit_and-half (flag-bit_and k (a / 2) (b / 2))

pub flag-bit_xor : (k a b : ℕ) → flag k (bit_xor a b) ≡ (flag k a + flag k b) % 2
flag-bit_xor zero a b = omega (arith, bit_xor_halves a b)
flag-bit_xor (suc k) a b = rw bit_xor-half (flag-bit_xor k (a / 2) (b / 2))

bit_and-zero_below : (n a : ℕ) → a ≤ n → bit_and a 0 ≡ 0
bit_and-zero_below n zero h = zero-bit_and 0
bit_and-zero_below zero (suc a) h = absurd (omega arith)
bit_and-zero_below (suc n) (suc a) h =
    omega (arith, bit_and_halves (suc a) 0, bit_and-zero_below n (suc a / 2) (omega arith))

pub bit_and-zero : (a : ℕ) → bit_and a 0 ≡ 0
bit_and-zero a = bit_and-zero_below a a (omega arith)

pub bit_and-le_right : (k a b : ℕ) → b < 2 ^ k → bit_and a b ≤ b
bit_and-le_right zero a zero h = omega (arith, bit_and-zero a)
bit_and-le_right zero a (suc b) h = absurd (omega arith)
bit_and-le_right (suc k) a b h = omega (
  arith,
  pow-suc 2 k,
  bit_and_halves a b,
  bit_and-le_right k (a / 2) (b / 2) (omega (arith, pow-suc 2 k)),
)

bit_or-zero_below : (n a : ℕ) → a ≤ n → bit_or a 0 ≡ a
bit_or-zero_below n zero h = zero-bit_or 0
bit_or-zero_below zero (suc a) h = absurd (omega arith)
bit_or-zero_below (suc n) (suc a) h =
    omega (arith, bit_or_halves (suc a) 0, bit_or-zero_below n (suc a / 2) (omega arith))

-- An even number and one digit.
pub bit_or_low_bit : (q c : ℕ) → c ≤ 1 → bit_or (q * 2) c ≡ q * 2 + c
bit_or_low_bit q zero h = bit_or-zero_below (q * 2) (q * 2) (omega arith) ∙ omega arith
bit_or_low_bit q (suc zero) h = omega (
  arith,
  bit_or_halves (q * 2) 1,
  ap (λ (t : ℕ). bit_or t 0) (half_even q),
  bit_or-zero_below q q,
)
  where
    half_even : (q : ℕ) → q * 2 / 2 ≡ q
    half_even q = omega arith
bit_or_low_bit q (suc (suc c)) h = absurd (omega arith)

-- A mask with zeros below: the low digits of the number play no part.
abbrev halve : ℕ → ℕ → ℕ
halve zero a = a
halve (suc k) a = halve k (a / 2)

abbrev double : ℕ → ℕ → ℕ
double zero a = a
double (suc k) a = double k a * 2

bit_and-double : (k a m : ℕ) → bit_and a (double k m) ≡ double k (bit_and (halve k a) m)
bit_and-double zero a m = refl
bit_and-double (suc k) a m = omega (
  arith,
  bit_and_halves a (double k m * 2),
  ap (λ (t : ℕ). bit_and (a / 2) t) (half_double m k),
  bit_and-double k (a / 2) m,
)
  where
    half_double : (m k : ℕ) → double k m * 2 / 2 ≡ double k m
    half_double m k = omega arith

-- A mask of ones.
abbrev ones : ℕ → ℕ
ones zero = 0
ones (suc k) = ones k * 2 + 1

abbrev low : ℕ → ℕ → ℕ
low zero a = 0
low (suc k) a = low k (a / 2) * 2 + a % 2

bit_and-ones : (k a : ℕ) → bit_and a (ones k) ≡ low k a
bit_and-ones zero a = bit_and-zero a
bit_and-ones (suc k) a = omega (
  arith,
  bit_and_halves a (ones k * 2 + 1),
  ap (λ (t : ℕ). bit_and (a / 2) t) (half_ones k),
  bit_and-ones k (a / 2),
)
  where
    half_ones : (k : ℕ) → (ones k * 2 + 1) / 2 ≡ ones k
    half_ones k = omega arith

pub bit_and_nibble : (a : ℕ) → bit_and a 0xf ≡ a % 16
bit_and_nibble a = omega (arith, bit_and-ones 4 a)

pub bit_and_byte : (a : ℕ) → bit_and a 0xff ≡ a % 256
bit_and_byte a = omega (arith, bit_and-ones 8 a)

pub bit_and_seven_bits : (a : ℕ) → bit_and a 0x7f ≡ a % 128
bit_and_seven_bits a = omega (arith, bit_and-ones 7 a)

pub bit_and_high_byte : (a : ℕ) → bit_and a 0xff00 ≡ a / 256 % 256 * 256
bit_and_high_byte a = omega (arith, bit_and-double 8 a 255, bit_and-ones 8 (halve 8 a))

pub bit_and_even : (a : ℕ) → bit_and a 0xfe ≡ a / 2 % 128 * 2
bit_and_even a = omega (arith, bit_and-double 1 a 127, bit_and-ones 7 (halve 1 a))

-- The masks of a single bit.
pub bit_and_bit : (k a : ℕ) → bit_and a (double k 1) ≡ double k (flag k a)
bit_and_bit zero a = omega (arith, bit_and-ones 1 a)
bit_and_bit (suc k) a =
    omega (arith, bit_and-double (suc k) a 1, bit_and-double k (a / 2) 1, bit_and_bit k (a / 2))

pub bit_and_bit0 : (a : ℕ) → bit_and a 1 ≡ flag 0 a
bit_and_bit0 a = bit_and_bit 0 a

pub bit_and_bit1 : (a : ℕ) → bit_and a 2 ≡ flag 1 a * 2
bit_and_bit1 a = bit_and_bit 1 a

pub bit_and_bit3 : (a : ℕ) → bit_and a 8 ≡ flag 3 a * 8
bit_and_bit3 a = omega (arith, bit_and_bit 3 a)

pub bit_and_bit4 : (a : ℕ) → bit_and a 16 ≡ flag 4 a * 16
bit_and_bit4 a = omega (arith, bit_and_bit 4 a)

pub bit_and_bit7 : (a : ℕ) → bit_and a 128 ≡ flag 7 a * 128
bit_and_bit7 a = omega (arith, bit_and_bit 7 a)

pub ruleset flags = (flag-bit_or, flag-bit_and, flag-bit_xor)
