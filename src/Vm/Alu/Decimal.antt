-- ===== src/Vm/Alu/Decimal.antt =====
-- ADC and SBC in decimal mode against the arithmetic of two-digit numbers.
use dan.Prelude.{
  ℕ, ◌+◌, ◌-◌, ◌*◌, ◌/◌, ◌%◌, ◌≤◌, ◌<◌, ◌≡◌, ◌==◌, not, refl, u8, u16, ltb, leb, if◌then◌else◌,
  arith, bit_and, bit_or,
}
use dan.Bits.{bit_or_fields}
use dan.Bits.Flag.{flag, flag-le, bit_and_nibble, bit_and_bit0, bit_and_bit4}
use dan.Vm.Flags.{cf, test_c}
use dan.Vm.Alu.{adc_im_d, sbc_im_d, is_set, lnot}
use dan.Vm.Alu.Status.{IsVnzc, IsVnzc-cast, to_bit, decimal_status}
use dan.Vm.Alu.Binary.{if_flip}

-- The decimal digits of a number below 100, a digit to a nibble.
abbrev pub bcd : ℕ → ℕ
bcd n = n / 10 * 16 + n % 10

-- One digit of the sum, as `adc` adjusts it.
adjust : ℕ → ℕ
adjust l = if ltb 9 l then u16 (l + 6) else l

adjust_digit :
    (l : ℕ) → l < 20 → (adjust l % 16 ≡ l % 10) × ((if ltb 15 (adjust l) then 1 else 0) ≡ l / 10)
unfolding adjust
adjust_digit l h = ground arith

-- The decimal sum: the result is the sum modulo 100 in decimal digits, C is the hundred carried out,
-- Z is that of the result, V and N are cleared and the other flags stay.
pub adc_im_d_lem :
    (m n s : ℕ)
    → m < 100
    → n < 100
    → let c = flag cf s in
      let (r, s') = adc_im_d (bcd m) (bcd n) s in
      (r ≡ bcd ((m + n + c) % 100)) × IsVnzc s 0 0 (to_bit (r == 0)) ((m + n + c) / 100) s'
unfolding adc_im_d test_c adjust
adc_im_d_lem m n s hm hn = (sum, IsVnzc-cast (decimal_status s (ltb 15 h) r) refl refl refl hundred)
  where
    t0 : ℕ
    t0 = u16 (bit_and (bcd m) 0xf + bit_and (bcd n) 0xf + bit_and s 1)

    h0 : ℕ
    h0 = u16 (bcd m / 16 + bcd n / 16 + (if ltb 15 (adjust t0) then 1 else 0))

    h : ℕ
    h = adjust h0

    r : ℕ
    r = u8 (bit_or (bit_and (adjust t0) 0xf) (h * 16))

    low_sum : t0 ≡ m % 10 + n % 10 + flag cf s
    low_sum =
        omega (arith, bit_and_nibble (bcd m), bit_and_nibble (bcd n), bit_and_bit0 s, flag-le 0 s)

    high_sum : h0 ≡ m / 10 + n / 10 + (m % 10 + n % 10 + flag cf s) / 10
    high_sum =
        omega (arith, low_sum, flag-le 0 s, adjust_digit t0 (omega (arith, low_sum, flag-le 0 s)))

    sum : r ≡ bcd ((m + n + flag cf s) % 100)
    sum = omega (
      arith,
      bit_and_nibble (adjust t0),
      bit_or_fields 4 h (bit_and (adjust t0) 0xf) (omega (arith, bit_and_nibble (adjust t0))),
      low_sum,
      high_sum,
      flag-le 0 s,
      adjust_digit t0 (omega (arith, low_sum, flag-le 0 s)),
      adjust_digit h0 (omega (arith, high_sum, flag-le 0 s)),
    )

    hundred : to_bit (ltb 15 h) ≡ (m + n + flag cf s) / 100
    hundred =
        omega (arith, high_sum, flag-le 0 s, adjust_digit h0 (omega (arith, high_sum, flag-le 0 s)))

-- One digit of the difference, as `sbc` adjusts it; a borrow shows in bit 4.
adjust_down : ℕ → ℕ
adjust_down l = if is_set (bit_and l 0x10) then u16 (l + 65536 - 6) else l

abbrev digit_difference : ℕ → ℕ → ℕ → ℕ
digit_difference x y b = u16 (x + 65536 - y - b)

adjust_down_digit :
    (x y b : ℕ)
    → x < 10
    → y < 10
    → b ≤ 1
    → let l = adjust_down (digit_difference x y b) in
      (l % 16 ≡ (x + 10 - y - b) % 10)
      × (bit_and l 0x10 / 16 ≡ to_bit (ltb x (y + b)))
      × (ltb 15 l ≡ ltb x (y + b))
unfolding adjust_down
adjust_down_digit x y b hx hy hb = ground (
  arith,
  bit_and_bit4 (digit_difference x y b),
  bit_and_bit4 (u16 (digit_difference x y b + 65536 - 6)),
)

-- What the two adjusted digits make together, whatever computed them.
joined_difference :
    (m n b low high r : ℕ)
    → m < 100
    → n < 100
    → b ≤ 1
    → low % 16 ≡ (m % 10 + 10 - n % 10 - b) % 10
    → high % 16 ≡ (m / 10 + 10 - n / 10 - to_bit (ltb (m % 10) (n % 10 + b))) % 10
    → ltb 15 high ≡ ltb (m / 10) (n / 10 + to_bit (ltb (m % 10) (n % 10 + b)))
    → r ≡ (high * 16 + low % 16) % 256
    → (r ≡ bcd ((m + 100 - n - b) % 100)) × (to_bit (not (ltb 15 high)) ≡ to_bit (leb (n + b) m))
joined_difference m n b low high r hm hn hb el eh ec er = ground arith

-- The decimal difference with the borrow, which is the complement of C: the result is the difference
-- modulo 100 in decimal digits, C says that nothing is borrowed, Z is that of the result, V and N
-- are cleared and the other flags stay.
pub sbc_im_d_lem :
    (m n s : ℕ)
    → m < 100
    → n < 100
    → let b = 1 - flag cf s in
      let (r, s') = sbc_im_d (bcd m) (bcd n) s in
      (r ≡ bcd ((m + 100 - n - b) % 100))
      × IsVnzc s 0 0 (to_bit (r == 0)) (to_bit (leb (n + b) m)) s'
unfolding sbc_im_d test_c adjust_down
sbc_im_d_lem m n s hm hn = (
  joined.0,
  rw (if_flip (ltb 15 h) 1)
      (IsVnzc-cast (decimal_status s (not (ltb 15 h)) r) refl refl refl joined.1),
)
  where
    b : ℕ
    b = 1 - flag cf s

    t0 : ℕ
    t0 = u16 (bit_and (bcd m) 0xf + 65536 - bit_and (bcd n) 0xf - lnot (bit_and s 1))

    h0 : ℕ
    h0 = u16 (bcd m / 16 + 65536 - bcd n / 16 - bit_and (adjust_down t0) 0x10 / 16)

    h : ℕ
    h = adjust_down h0

    r : ℕ
    r = u8 (bit_or (bit_and (adjust_down t0) 0xf) (h * 16))

    low_difference : t0 ≡ digit_difference (m % 10) (n % 10) b
    low_difference =
        ground (arith, bit_and_nibble (bcd m), bit_and_nibble (bcd n), bit_and_bit0 s, flag-le 0 s)

    borrow : ℕ
    borrow = to_bit (ltb (m % 10) (n % 10 + b))

    low_digit :
        (adjust_down t0 % 16 ≡ (m % 10 + 10 - n % 10 - b) % 10)
        × (bit_and (adjust_down t0) 0x10 / 16 ≡ borrow)
        × (ltb 15 (adjust_down t0) ≡ ltb (m % 10) (n % 10 + b))
    low_digit =
        rw low_difference
          (adjust_down_digit (m % 10) (n % 10) b (omega arith) (omega arith) (omega arith))

    high_difference : h0 ≡ digit_difference (m / 10) (n / 10) borrow
    high_difference = rw (low_digit.1) (omega arith)

    high_digit :
        (h % 16 ≡ (m / 10 + 10 - n / 10 - borrow) % 10)
        × (bit_and h 0x10 / 16 ≡ to_bit (ltb (m / 10) (n / 10 + borrow)))
        × (ltb 15 h ≡ ltb (m / 10) (n / 10 + borrow))
    high_digit =
        rw high_difference
          (adjust_down_digit (m / 10) (n / 10) borrow (omega arith) (omega arith) (ground arith))

    packed : r ≡ (h * 16 + adjust_down t0 % 16) % 256
    packed = omega (
      arith,
      bit_and_nibble (adjust_down t0),
      bit_or_fields 4 h (bit_and (adjust_down t0) 0xf)
          (omega (arith, bit_and_nibble (adjust_down t0))),
    )

    joined :
        (r ≡ bcd ((m + 100 - n - b) % 100)) × (to_bit (not (ltb 15 h)) ≡ to_bit (leb (n + b) m))
    joined =
        joined_difference m n b (adjust_down t0) h r hm hn (omega arith) low_digit.0 high_digit.0
          high_digit.2 packed
