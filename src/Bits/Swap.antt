-- ===== src/Bits/Swap.antt =====
-- The operands of `|` change places, and `^` can be undone.
use dan.Prelude.{ℕ, zero, suc, ◌+◌, ◌/◌, ◌≤◌, bit_or, bit_xor, ◌≡◌, refl, arith}
use dan.Bits.Step.{bit_or_halves, bit_xor_halves}

bit_or_comm_below : (top a b : ℕ) → a ≤ top → b ≤ top → bit_or a b ≡ bit_or b a
bit_or_comm_below zero zero zero ha hb = refl
bit_or_comm_below zero (suc a) b ha hb = absurd (omega arith)
bit_or_comm_below zero zero (suc b) ha hb = absurd (omega arith)
bit_or_comm_below (suc top) a b ha hb = omega (
  arith,
  bit_or_halves a b,
  bit_or_halves b a,
  bit_or_comm_below top (a / 2) (b / 2) (omega arith) (omega arith),
)

pub bit_or_comm : (a b : ℕ) → bit_or a b ≡ bit_or b a
bit_or_comm a b = bit_or_comm_below (a + b) a b (omega arith) (omega arith)

bit_xor-cancel_below : (top a b c : ℕ) → a ≤ top → b ≤ top → bit_xor a c ≡ bit_xor b c → a ≡ b
bit_xor-cancel_below zero a b c ha hb h = omega arith
bit_xor-cancel_below (suc top) a b c ha hb h =
    let halves =
      bit_xor-cancel_below top (a / 2) (b / 2) (c / 2) (omega arith) (omega arith)
        (omega (arith, bit_xor_halves a c, bit_xor_halves b c)) in
    omega (arith, halves, bit_xor_halves a c, bit_xor_halves b c)

pub bit_xor-cancel : (a b c : ℕ) → bit_xor a c ≡ bit_xor b c → a ≡ b
bit_xor-cancel a b c h = bit_xor-cancel_below (a + b) a b c (omega arith) (omega arith) h

bit_xor_comm_below : (top a b : ℕ) → a ≤ top → b ≤ top → bit_xor a b ≡ bit_xor b a
bit_xor_comm_below zero zero zero ha hb = refl
bit_xor_comm_below zero (suc a) b ha hb = absurd (omega arith)
bit_xor_comm_below zero zero (suc b) ha hb = absurd (omega arith)
bit_xor_comm_below (suc top) a b ha hb = omega (
  arith,
  bit_xor_halves a b,
  bit_xor_halves b a,
  bit_xor_comm_below top (a / 2) (b / 2) (omega arith) (omega arith),
)

pub bit_xor_comm : (a b : ℕ) → bit_xor a b ≡ bit_xor b a
bit_xor_comm a b = bit_xor_comm_below (a + b) a b (omega arith) (omega arith)
