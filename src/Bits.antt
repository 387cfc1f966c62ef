-- ===== src/Bits.antt =====
-- Laws of `&`, `|` and `^` on numbers, by their lowest digit, at every width.
mod Step
pub mod Flag
pub mod Swap
pub use Step.{zero-bit_xor}
use Step.{bit_or_halves, bit_xor_halves, zero-bit_or}
use native.Mathlib.Nat.{pow-suc}
use dan.Prelude.{
  ℕ, zero, suc, ◌+◌, ◌*◌, ◌/◌, ◌%◌, ◌^◌, ◌≤◌, ◌<◌, min, max, bit_and, bit_or, bit_xor,
}
use dan.Prelude.{◌≡◌, refl, arith, ap, ◌∙◌}

pub bit_or-lt : (k a b : ℕ) → a < 2 ^ k → b < 2 ^ k → bit_or a b < 2 ^ k
bit_or-lt zero zero zero ha hb = omega arith
bit_or-lt zero (suc a) b ha hb = absurd (omega arith)
bit_or-lt zero zero (suc b) ha hb = absurd (omega arith)
bit_or-lt (suc k) a b ha hb = omega (
  arith,
  pow-suc 2 k,
  bit_or_halves a b,
  bit_or-lt k (a / 2) (b / 2) (omega (arith, pow-suc 2 k)) (omega (arith, pow-suc 2 k)),
)

pub bit_xor-lt : (k a b : ℕ) → a < 2 ^ k → b < 2 ^ k → bit_xor a b < 2 ^ k
bit_xor-lt zero zero zero ha hb = omega arith
bit_xor-lt zero (suc a) b ha hb = absurd (omega arith)
bit_xor-lt zero zero (suc b) ha hb = absurd (omega arith)
bit_xor-lt (suc k) a b ha hb = omega (
  arith,
  pow-suc 2 k,
  bit_xor_halves a b,
  bit_xor-lt k (a / 2) (b / 2) (omega (arith, pow-suc 2 k)) (omega (arith, pow-suc 2 k)),
)

lt-pow : (a : ℕ) → a < 2 ^ a
lt-pow zero = omega arith
lt-pow (suc a) = omega (arith, pow-suc 2 a, lt-pow a)

double_field : (q k : ℕ) → q * 2 ^ suc k / 2 ≡ q * 2 ^ k
double_field q k = omega (arith, ap (λ (t : ℕ). q * t) (pow-suc 2 k))

even_field : (q k : ℕ) → q * 2 ^ suc k % 2 ≡ 0
even_field q k = omega (arith, ap (λ (t : ℕ). q * t) (pow-suc 2 k))

-- A number below `2 ^ k` and a multiple of `2 ^ k` have no digit in common.
pub bit_or_fields : (k q r : ℕ) → r < 2 ^ k → bit_or r (q * 2 ^ k) ≡ r + q * 2 ^ k
bit_or_fields zero q zero h = omega (arith, zero-bit_or (q * 1))
bit_or_fields zero q (suc r) h = absurd (omega arith)
bit_or_fields (suc k) q r h =
    let upper = bit_or_fields k q (r / 2) (omega (arith, pow-suc 2 k)) in
    bit_or_halves r (q * 2 ^ suc k)
    ∙ rw (double_field q k, even_field q k, upper)
        (omega (arith, ap (λ (t : ℕ). q * t) (pow-suc 2 k)))

le-bit_or_pow : (k a b : ℕ) → a < 2 ^ k → a ≤ bit_or a b
le-bit_or_pow zero zero b ha = omega arith
le-bit_or_pow zero (suc a) b ha = absurd (omega arith)
le-bit_or_pow (suc k) a b ha = omega (
  arith,
  pow-suc 2 k,
  bit_or_halves a b,
  le-bit_or_pow k (a / 2) (b / 2) (omega (arith, pow-suc 2 k)),
)

pub le-bit_or : (a b : ℕ) → a ≤ bit_or a b
le-bit_or a b = le-bit_or_pow a a b (lt-pow a)
