-- ===== src/Vm/Alu/Shift.antt =====
-- The shifts, the rotations and the comparison against arithmetic.
use dan.Prelude.{ℕ, ◌+◌, ◌-◌, ◌*◌, ◌/◌, ◌%◌, ◌<◌, ◌≡◌, ◌==◌, refl, leb, arith, bit_and, bit_or}
use dan.Bits.{bit_or_fields}
use dan.Bits.Flag.{
  flag, flag-le, bit_and_bit0, bit_and_bit7, bit_and_even, bit_and_seven_bits, bit_or_low_bit,
}
use dan.Vm.Flags.{cf, vf, nf, test_n, test_c}
use dan.Vm.Alu.{compare_flags, asl, rol, lsr, ror, is_set}
use dan.Vm.Alu.Status.{IsVnzc, IsVnzc-cast, to_bit, nzc_status, right_status, lsr_status}

top_bit : (t : ℕ) → t < 256 → to_bit (is_set (bit_and t 128)) ≡ t / 128
top_bit t h = ground (arith, bit_and_bit7 t)

-- A comparison subtracts without keeping the difference: C says that the register is not below the
-- operand, Z that they are equal, N is the top bit of the difference.
pub compare_flags_lem :
    (r t s : ℕ)
    → r < 256
    → t < 256
    → IsVnzc s
        (flag vf s)
        (flag nf ((r + 256 - t) % 256))
        (to_bit (r == t))
        (to_bit (leb t r))
        (compare_flags r t s)
unfolding compare_flags
compare_flags_lem r t s hr ht =
    IsVnzc-cast (nzc_status s (leb t r) ((r + 256 - t) % 256)) refl refl (ground arith) refl

-- ASL doubles modulo 256, and C takes the bit that falls out.
pub asl_lem :
    (t s : ℕ)
    → t < 256
    → let (v, s') = asl t s in
      (v ≡ t * 2 % 256) × IsVnzc s (flag vf s) (flag nf v) (to_bit (v == 0)) (t / 128) s'
unfolding asl test_n
asl_lem t s h = (
  omega (arith, bit_and_even (t * 2)),
  IsVnzc-cast (nzc_status s (is_set (bit_and t 128)) (bit_and (t * 2) 0xfe)) refl refl refl
      (top_bit t h),
)

-- ROL does so with the old C as the new lowest bit.
pub rol_lem :
    (t s : ℕ)
    → t < 256
    → let (v, s') = rol t s in
      (v ≡ (t * 2 + flag cf s) % 256)
      × IsVnzc s (flag vf s) (flag nf v) (to_bit (v == 0)) (t / 128) s'
unfolding rol test_n test_c
rol_lem t s h = (
  rw
      (
        bit_and_even (t * 2),
        bit_and_bit0 s,
        bit_or_low_bit (t * 2 / 2 % 128) (flag cf s) (flag-le 0 s),
      )
      (omega (arith, flag-le 0 s)),
  IsVnzc-cast (nzc_status s (is_set (bit_and t 128)) (bit_or (bit_and (t * 2) 0xfe) (bit_and s 1)))
      refl refl refl (top_bit t h),
)

-- LSR halves, C takes the lowest bit, and N is cleared.
pub lsr_lem :
    (t s : ℕ)
    → t < 256
    → let (v, s') = lsr t s in (v ≡ t / 2) × IsVnzc s (flag vf s) 0 (to_bit (v == 0)) (t % 2) s'
unfolding lsr
lsr_lem t s h = (omega (arith, bit_and_seven_bits (t / 2)), lsr_status s t (bit_and (t / 2) 0x7f))

-- ROR halves with the old C as the new top bit.
pub ror_lem :
    (t s : ℕ)
    → t < 256
    → let (v, s') = ror t s in
      (v ≡ t / 2 + flag cf s * 128) × IsVnzc s (flag vf s) (flag nf v) (to_bit (v == 0)) (t % 2) s'
unfolding ror test_c
ror_lem t s h = (
  ground (
    arith,
    bit_and_seven_bits (t / 2),
    bit_and_bit0 s,
    flag-le 0 s,
    bit_or_fields 7 0 (bit_and (t / 2) 0x7f),
    bit_or_fields 7 1 (bit_and (t / 2) 0x7f),
  ),
  right_status s t _,
)

-- The two rotations undo each other, for the byte and for C.
pub ror-rol :
    (t s : ℕ)
    → t < 256
    → let (v, s') = rol t s in let (t', s'') = ror v s' in (t' ≡ t) × (flag cf s'' ≡ flag cf s)
ror-rol t s h =
    let (v, st) = rol_lem t s h in
    let back = ror_lem (rol t s).0 (rol t s).1 (omega arith) in
    (omega (arith, back.0, st.carry, flag-le 0 s), omega (arith, back.1.carry, flag-le 0 s))

pub rol-ror :
    (t s : ℕ)
    → t < 256
    → let (v, s') = ror t s in let (t', s'') = rol v s' in (t' ≡ t) × (flag cf s'' ≡ flag cf s)
rol-ror t s h =
    let (v, st) = ror_lem t s h in
    let back = rol_lem (ror t s).0 (ror t s).1 (omega (arith, v, flag-le 0 s)) in
    (omega (arith, back.0, st.carry, flag-le 0 s), omega (arith, back.1.carry, flag-le 0 s))
