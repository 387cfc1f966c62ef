-- ===== src/Vm/Alu/Binary.antt =====
-- ADC and SBC in binary mode against the arithmetic of the two's complement bytes.
use dan.Prelude.{
  ℕ, ◌+◌, ◌-◌, ◌/◌, ◌%◌, ◌<◌, ◌≡◌, ◌==◌, Bool, not, ◌||◌, refl, ap, u16, ltb, leb, if◌then◌else◌,
  arith, bit_and, bit_xor,
}
use dan.Bits.Flag.{
  flag, flag-le, flags, bit_and_byte, bit_and_high_byte, bit_and_bit0, bit_and_bit7,
}
use dan.Vm.Flags.{cf, nf, test_n, test_c}
use dan.Vm.Alu.{adc_im, sbc_im, is_set, lnot}
use dan.Vm.Alu.Status.{IsVnzc, IsVnzc-cast, to_bit, vnzc_status}

-- 128 more than the number from -128 to 127 that a byte stands for.
abbrev pub biased : ℕ → ℕ
biased a = (a + 128) % 256

-- The signed sum of two bytes and a carry is below -128 or above 127.
abbrev pub sum_overflows : ℕ → ℕ → ℕ → Bool
sum_overflows a t c = ltb (biased a + biased t + c) 128 || leb 384 (biased a + biased t + c)

-- The top bit of a byte is its sign.
flag_sign : (a : ℕ) → a < 256 → flag 7 a ≡ a / 128
flag_sign a h = omega arith

adc_overflow :
    (a t s r : ℕ)
    → a < 256
    → t < 256
    → r ≡ (a + t + flag cf s) % 256
    → not (bit_and (bit_and (bit_xor (bit_xor a t) 0xffff) (bit_xor a r)) 128 == 0)
      ≡ sum_overflows a t (flag cf s)
adc_overflow a t s r ha ht e = rw bit_and_bit7 (
    simp flags
      (ground (arith, flag_sign a ha, flag_sign t ht, flag_sign r (omega arith), flag-le 0 s)))

-- The binary sum: the result is the sum modulo 256, C is the carry out, V says that the signed sum
-- is out of range, N and Z are those of the result, and the other flags stay.
pub adc_im_lem :
    (a t s : ℕ)
    → a < 256
    → t < 256
    → let c = flag cf s in
      let (r, s') = adc_im a t s in
      (r ≡ (a + t + c) % 256)
      × IsVnzc s (to_bit (sum_overflows a t c)) (flag nf r) (to_bit (r == 0)) ((a + t + c) / 256) s'
unfolding adc_im test_c test_n
adc_im_lem a t s ha ht = (
  sum,
  IsVnzc-cast
      (vnzc_status s (is_set (bit_and (bit_and (bit_xor (bit_xor a t) 0xffff) (bit_xor a low)) 128))
        (is_set (bit_and t16 0xff00)) t16 low)
      (ap to_bit (adc_overflow a t s low ha ht sum)) same_sign refl carry_out,
)
  where
    t16 : ℕ
    t16 = u16 (a + t + bit_and s 1)

    low : ℕ
    low = bit_and t16 0xff

    sum : low ≡ (a + t + flag cf s) % 256
    sum = ground (arith, bit_and_byte t16, bit_and_bit0 s)

    carry_out : to_bit (is_set (bit_and t16 0xff00)) ≡ (a + t + flag cf s) / 256
    carry_out = ground (arith, bit_and_high_byte t16, bit_and_bit0 s, flag-le 0 s)

    same_sign : flag nf t16 ≡ flag nf low
    same_sign = simp flags (omega (arith, flag-le 7 t16))

pub if_flip : (b : Bool) (n : ℕ) → (if b then 0 else n) ≡ (if not b then n else 0)
if_flip b n = ground arith

-- The signed difference of two bytes and a borrow is below -128 or above 127.
abbrev pub difference_overflows : ℕ → ℕ → ℕ → Bool
difference_overflows a t b =
    ltb (biased a + 256) (biased t + b + 128) || leb (biased t + b + 384) (biased a + 256)

sbc_overflow :
    (a t s r : ℕ)
    → a < 256
    → t < 256
    → r ≡ (a + 256 + flag cf s - t - 1) % 256
    → is_set (bit_and (bit_and (bit_xor a t) (bit_xor a r)) 128)
      ≡ difference_overflows a t (1 - flag cf s)
sbc_overflow a t s r ha ht e = rw bit_and_bit7 (
    simp flags
      (ground (arith, flag_sign a ha, flag_sign t ht, flag_sign r (omega arith), flag-le 0 s)))

-- The binary difference with the borrow, which is the complement of C: the result is the difference
-- modulo 256, C says that nothing is borrowed, V that the signed difference is out of range, N and
-- Z are those of the result, and the other flags stay.
pub sbc_im_lem :
    (a t s : ℕ)
    → a < 256
    → t < 256
    → let b = 1 - flag cf s in
      let (r, s') = sbc_im a t s in
      (r ≡ (a + 256 - t - b) % 256)
      × IsVnzc s
          (to_bit (difference_overflows a t b))
          (flag nf r)
          (to_bit (r == 0))
          (to_bit (leb (t + b) a))
          s'
unfolding sbc_im test_c test_n
sbc_im_lem a t s ha ht = (
  difference,
  rw (if_flip (is_set (bit_and t16 0xff00)) 1) (
      IsVnzc-cast
        (vnzc_status s (is_set (bit_and (bit_and (bit_xor a t) (bit_xor a low)) 128))
          (not (is_set (bit_and t16 0xff00))) t16 low)
        (ap to_bit (sbc_overflow a t s low ha ht (omega (arith, difference, flag-le 0 s))))
        same_sign refl no_borrow),
)
  where
    t16 : ℕ
    t16 = u16 (a + 65536 - t - lnot (bit_and s 1))

    low : ℕ
    low = bit_and t16 0xff

    difference : low ≡ (a + 256 - t - (1 - flag cf s)) % 256
    difference = ground (arith, bit_and_byte t16, bit_and_bit0 s, flag-le 0 s)

    no_borrow : to_bit (not (is_set (bit_and t16 0xff00))) ≡ to_bit (leb (t + (1 - flag cf s)) a)
    no_borrow = ground (arith, bit_and_high_byte t16, bit_and_bit0 s, flag-le 0 s)

    same_sign : flag nf t16 ≡ flag nf low
    same_sign = simp flags (omega (arith, flag-le 7 t16))
