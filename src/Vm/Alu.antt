-- ===== src/Vm/Alu.antt =====
-- The arithmetic of the shared labels of `vm_exec`: what each computes from the accumulator or the
-- operand and the status register. A value is followed by the new status register.
pub mod Status
pub mod Binary
pub mod Decimal
pub mod Bytes
pub mod Shift
use dan.Prelude.{
  ℕ, ◌+◌, ◌-◌, ◌*◌, ◌/◌, ◌==◌, not, Bool, ltb, leb, if◌then◌else◌, bit_and, bit_or, bit_xor, u8,
  u16,
}
use dan.Vm.Flags.{cf, zf, vf, nf, sbit, test_n, test_z, test_c, test_d, clear}

-- A C condition `x ? a : b`.
abbrev pub is_set : ℕ → Bool
is_set x = not (x == 0)

-- `!x` as a number.
abbrev pub lnot : ℕ → ℕ
lnot x = if x == 0 then 1 else 0

abbrev pub nzc : ℕ
nzc = bit_or (bit_or (sbit nf) (sbit zf)) (sbit cf)

abbrev pub vnzc : ℕ
vnzc = bit_or (sbit vf) nzc

-- cpx_im, cpy_im, cmp_im: the new status; `r` is the register, `t` is `r_t`.
unfoldable pub compare_flags : ℕ → ℕ → ℕ → ℕ
unfolding clear test_n test_z
compare_flags r t s =
    let ts = u8 (r + 256 - t) in
    bit_or (clear nzc s) (bit_or (bit_or (test_n ts) (test_z ts)) (if leb t r then sbit cf else 0))

-- Labels `asl` and `asl_a`.
unfoldable pub asl : ℕ → ℕ → ℕ × ℕ
unfolding clear test_n test_z
asl ts s =
    let t = bit_and (ts * 2) 0xfe in
    (
      t,
      bit_or (clear nzc s)
          (bit_or (bit_or (test_n t) (test_z t)) (if is_set (test_n ts) then sbit cf else 0)),
    )

-- Labels `rol` and `rol_a`.
unfoldable pub rol : ℕ → ℕ → ℕ × ℕ
unfolding clear test_n test_z test_c
rol ts s =
    let t = bit_or (bit_and (ts * 2) 0xfe) (test_c s) in
    (
      t,
      bit_or (clear nzc s)
          (bit_or (bit_or (test_n t) (test_z t)) (if is_set (test_n ts) then sbit cf else 0)),
    )

-- Labels `lsr` and `lsr_a`.
unfoldable pub lsr : ℕ → ℕ → ℕ × ℕ
unfolding clear test_n test_z test_c
lsr ts s =
    let t = bit_and (ts / 2) 0x7f in (t, bit_or (clear nzc s) (bit_or (test_z t) (test_c ts)))

-- Labels `ror` and `ror_a`.
unfoldable pub ror : ℕ → ℕ → ℕ × ℕ
unfolding clear test_n test_z test_c
ror ts s =
    let t = bit_or (bit_and (ts / 2) 0x7f) (if is_set (test_c s) then 0x80 else 0) in
    (t, bit_or (clear nzc s) (bit_or (bit_or (test_n t) (test_z t)) (test_c ts)))

-- Label `adc_im`.
unfoldable pub adc_im : ℕ → ℕ → ℕ → ℕ × ℕ
unfolding clear test_n test_z test_c
adc_im a t s =
    let t16 = u16 (a + t + test_c s) in
    let low = bit_and t16 0xff in
    let overflow = test_n (bit_and (bit_xor (bit_xor a t) 0xffff) (bit_xor a low)) in
    (
      low,
      bit_or (clear vnzc s) (
          bit_or
            (bit_or
              (bit_or (if is_set overflow then sbit vf else 0)
                (if is_set (bit_and t16 0xff00) then sbit cf else 0))
              (test_n t16))
            (test_z low)),
    )

-- Label `adc_im_d`, in decimal mode.
unfoldable pub adc_im_d : ℕ → ℕ → ℕ → ℕ × ℕ
unfolding clear test_z test_c
adc_im_d a t s =
    let t0 = u16 (bit_and a 0xf + bit_and t 0xf + test_c s) in
    let t16 = if ltb 9 t0 then u16 (t0 + 6) else t0 in
    let h0 = u16 (a / 16 + t / 16 + (if ltb 15 t16 then 1 else 0)) in
    let h = if ltb 9 h0 then u16 (h0 + 6) else h0 in
    let a' = u8 (bit_or (bit_and t16 0xf) (h * 16)) in
    (a', bit_or (clear vnzc s) (bit_or (if ltb 15 h then sbit cf else 0) (test_z a')))

-- Label `adc` from the fetched operand on.
unfoldable pub adc : ℕ → ℕ → ℕ → ℕ × ℕ
unfolding adc_im adc_im_d test_d
adc a t s = if is_set (test_d s) then adc_im_d a t s else adc_im a t s

-- Label `sbc_im`; 65536 is added before the subtractions, which wrap in `uint16_t`.
unfoldable pub sbc_im : ℕ → ℕ → ℕ → ℕ × ℕ
unfolding clear test_n test_z test_c
sbc_im a t s =
    let t16 = u16 (a + 65536 - t - lnot (test_c s)) in
    let low = bit_and t16 0xff in
    let overflow = test_n (bit_and (bit_xor a t) (bit_xor a low)) in
    (
      low,
      bit_or (clear vnzc s) (
          bit_or
            (bit_or
              (bit_or (if is_set overflow then sbit vf else 0)
                (if is_set (bit_and t16 0xff00) then 0 else sbit cf))
              (test_n t16))
            (test_z low)),
    )

-- Label `sbc_im_d`, in decimal mode.
unfoldable pub sbc_im_d : ℕ → ℕ → ℕ → ℕ × ℕ
unfolding clear test_z test_c
sbc_im_d a t s =
    let t0 = u16 (bit_and a 0xf + 65536 - bit_and t 0xf - lnot (test_c s)) in
    let t16 = if is_set (bit_and t0 0x10) then u16 (t0 + 65536 - 6) else t0 in
    let h0 = u16 (a / 16 + 65536 - t / 16 - bit_and t16 0x10 / 16) in
    let h = if is_set (bit_and h0 0x10) then u16 (h0 + 65536 - 6) else h0 in
    let a' = u8 (bit_or (bit_and t16 0xf) (h * 16)) in
    (a', bit_or (clear vnzc s) (bit_or (if ltb 15 h then 0 else sbit cf) (test_z a')))

-- Label `sbc` from the fetched operand on.
unfoldable pub sbc : ℕ → ℕ → ℕ → ℕ × ℕ
unfolding sbc_im sbc_im_d test_d
sbc a t s = if is_set (test_d s) then sbc_im_d a t s else sbc_im a t s
