-- ===== src/Storage/Listener/Heard.antt =====
-- Eight pulses are heard as one byte.
use dan.Prelude.{
  ℕ, suc, ◌+◌, ◌*◌, ◌^◌, ◌<◌, ◌≤◌, ◌≡◌, ◌==◌, true, false, refl, ap, ◌∙◌, Bool-cases, inl, inr,
  if◌then◌else◌, bit_or, u8, arith, List, [], ◌∷◌, length,
}
use native.Mathlib.Nat.{pow-succ', pow-le-pow_right}
use dan.Bits.{bit_or_fields}
use dan.Ring.{Ring, insert}
use dan.Storage.Listener.{Listener, ain_buffer_size, is_long, pin_change, listen}

-- The number whose bits the pulses are, the lowest one first and of weight `w`.
unfoldable pub value : ℕ → List ℕ → ℕ
value w [] = 0
value w (p ∷ ps) = (if is_long p then w else 0) + value (2 * w) ps

-- In sync, with some bits of a byte.
abbrev pub at : Ring → ℕ → ℕ → Listener
at r k c = record { ain = r; sync = 4; bit = k; byte = c }

set_bit : (k c : ℕ) → c < 2 ^ k → bit_or c (2 ^ k) ≡ c + 2 ^ k
set_bit k c h = ap (bit_or c) (omega arith) ∙ bit_or_fields k 1 c h ∙ omega arith

pub power : (k : ℕ) → 2 ^ (k + 1) ≡ 2 * 2 ^ k
power k = ap (λ (n : ℕ). 2 ^ n) {x = k + 1} {y = suc k} (omega arith) ∙ pow-succ' 2 k

power-le : (k : ℕ) → k < 8 → 2 ^ k ≤ 128
power-le k h = pow-le-pow_right {n = 2} (omega arith) {j = 7} (omega arith)

byte_value :
    (k c p : ℕ)
    → k < 8
    → c < 2 ^ k
    → (if is_long p then u8 (bit_or c (2 ^ k)) else c) ≡ c + (if is_long p then 2 ^ k else 0)
byte_value k c p h hc = elim (Bool-cases (is_long p)) [
  | inl long ↦ rw long (ap u8 (set_bit k c hc) ∙ omega (arith, power-le k h))
  | inr short ↦ rw short (omega arith)
]

not_last : (k : ℕ) → k < 7 → (u8 (k + 1) == 8) ≡ false
not_last k h = ground arith

is_last : (k : ℕ) → k + 1 ≡ 8 → (u8 (k + 1) == 8) ≡ true
is_last k h = ground arith

bit_heard :
    (r : Ring) (k c p : ℕ)
    → k < 7
    → c < 2 ^ k
    → pin_change p (at r k c) ≡ at r (k + 1) (c + (if is_long p then 2 ^ k else 0))
unfolding pin_change
bit_heard r k c p h hc =
    rw (byte_value k c p (omega arith) hc, not_last k h)
      (ap (λ (j : ℕ). at r j (c + (if is_long p then 2 ^ k else 0))) (omega arith))

last_heard :
    (r : Ring) (k c p : ℕ)
    → k + 1 ≡ 8
    → c < 2 ^ k
    → pin_change p (at r k c)
      ≡ at (insert ain_buffer_size (c + (if is_long p then 2 ^ k else 0)) r) 0 0
unfolding pin_change
last_heard r k c p h hc = rw (byte_value k c p (omega arith) hc, is_last k h) refl

fits : (k c p : ℕ) → c < 2 ^ k → c + (if is_long p then 2 ^ k else 0) < 2 ^ (k + 1)
fits k c p h = ground (arith, power k)

-- The rest of a byte.
rest_heard :
    (ps : List ℕ) (r : Ring) (k c : ℕ)
    → k + length ps ≡ 8
    → k < 8
    → c < 2 ^ k
    → listen ps (at r k c) ≡ at (insert ain_buffer_size (c + value (2 ^ k) ps) r) 0 0
unfolding listen value
rest_heard [] r k c e h hc = absurd (omega arith)
rest_heard (p ∷ []) r k c e h hc =
    last_heard r k c p (omega arith) hc
    ∙ ap (λ (b : ℕ). at (insert ain_buffer_size b r) 0 0) (omega arith)
rest_heard (p ∷ q ∷ ps) r k c e h hc =
    ap (λ (l : Listener). listen (q ∷ ps) l) (bit_heard r k c p (omega arith) hc)
    ∙ rest_heard (q ∷ ps) r (k + 1) (c + (if is_long p then 2 ^ k else 0)) (omega arith)
        (omega arith) (fits k c p hc)
    ∙ ap (λ (b : ℕ). at (insert ain_buffer_size b r) 0 0) (rw (power k) (omega arith))

-- Eight pulses put one byte into the buffer, whose bits say which of them were long, the first
-- one lowest, and the listener is at the beginning of a byte again.
pub byte_heard :
    (ps : List ℕ) (r : Ring)
    → length ps ≡ 8
    → listen ps (at r 0 0) ≡ at (insert ain_buffer_size (value 1 ps) r) 0 0
byte_heard ps r e =
    rest_heard ps r 0 0 (omega (arith, e)) (omega arith) (omega arith)
    ∙ ap (λ (b : ℕ). at (insert ain_buffer_size b r) 0 0) (omega arith)
