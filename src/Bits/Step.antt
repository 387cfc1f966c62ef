-- ===== src/Bits/Step.antt =====
-- The native operations stand for `bitwise`, which counts down from its first number. Here the
-- count is dropped: what an operation does to the lowest digits and to the halves.
use Prim.Native.Nat.{digits, bitwise, bit_and-bitwise, bit_or-bitwise, bit_xor-bitwise, differ}
use dan.Prelude.{
  ℕ, zero, suc, ◌+◌, ◌*◌, ◌/◌, ◌%◌, ◌≤◌, ◌<◌, min, max, bit_and, bit_or, bit_xor, ◌≡◌, refl, arith,
}

module _ (rest : ℕ → ℕ) (digit : ℕ → ℕ → ℕ) where
  -- Any count from the first number on gives the same; `top` bounds the counts.
  spare_count : (top n a b : ℕ) → n ≤ top → a ≤ n → digits rest digit n a b ≡ bitwise rest digit a b
  spare_count top zero zero b hn ha = refl
  spare_count top (suc n) zero b hn ha = refl
  spare_count top zero (suc a) b hn ha = absurd (omega arith)
  spare_count zero (suc n) (suc a) b hn ha = absurd (omega arith)
  spare_count (suc top) (suc n) (suc a) b hn ha = omega (
    arith,
    spare_count top n (suc a / 2) (b / 2) (omega arith) (omega arith),
    spare_count top a (suc a / 2) (b / 2) (omega arith) (omega arith),
  )

  low_digit :
      (a b : ℕ)
      → let n = suc a in
        bitwise rest digit n b ≡ 2 * bitwise rest digit (n / 2) (b / 2) + digit (n % 2) (b % 2)
  low_digit a b = omega (arith, spare_count a a (suc a / 2) (b / 2) (omega arith) (omega arith))

pub zero-bit_and : (m : ℕ) → bit_and 0 m ≡ 0
zero-bit_and m = bit_and-bitwise 0 m

pub zero-bit_or : (m : ℕ) → bit_or 0 m ≡ m
zero-bit_or m = bit_or-bitwise 0 m

pub bit_and_halves : (m n : ℕ) → bit_and m n ≡ 2 * bit_and (m / 2) (n / 2) + min (m % 2) (n % 2)
bit_and_halves zero n = omega (arith, zero-bit_and n, zero-bit_and (n / 2))
bit_and_halves (suc m) n = simp bit_and-bitwise (low_digit (λ _. 0) min m n)

pub bit_or_halves : (m n : ℕ) → bit_or m n ≡ 2 * bit_or (m / 2) (n / 2) + max (m % 2) (n % 2)
bit_or_halves zero n = omega (arith, zero-bit_or n, zero-bit_or (n / 2))
bit_or_halves (suc m) n = simp bit_or-bitwise (low_digit (λ d. d) max m n)

differ_digits : (x y : ℕ) → x < 2 → y < 2 → differ x y ≡ (x + y) % 2
differ_digits zero y hx hy = omega arith
differ_digits (suc zero) zero hx hy = refl
differ_digits (suc zero) (suc zero) hx hy = refl
differ_digits (suc zero) (suc (suc y)) hx hy = absurd (omega arith)
differ_digits (suc (suc x)) y hx hy = absurd (omega arith)

differ_halves : (m n : ℕ) → bit_xor m n ≡ 2 * bit_xor (m / 2) (n / 2) + differ (m % 2) (n % 2)
differ_halves zero n = omega (arith, bit_xor-bitwise 0 n, bit_xor-bitwise 0 (n / 2))
differ_halves (suc m) n = simp bit_xor-bitwise (low_digit (λ d. d) differ m n)

pub bit_xor_halves : (m n : ℕ) → bit_xor m n ≡ 2 * bit_xor (m / 2) (n / 2) + (m % 2 + n % 2) % 2
bit_xor_halves m n =
    omega (arith, differ_halves m n, differ_digits (m % 2) (n % 2) (omega arith) (omega arith))

pub zero-bit_xor : (m : ℕ) → bit_xor 0 m ≡ m
zero-bit_xor m = bit_xor-bitwise 0 m
