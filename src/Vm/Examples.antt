-- ===== src/Vm/Examples.antt =====
-- Runs of the machine on a flat memory, and the theorems about it at concrete inputs.
use dan.Prelude.{ℕ, ◌+◌, ◌-◌, ◌/◌, ◌%◌, ◌≡◌, ◌==◌, false, leb, if◌then◌else◌, refl, arith, bit_or}
use dan.Bits.Flag.{flag}
use dan.Vm.Flags.{cf, nf}
use dan.Vm.State.{Vm, IsValid}
use dan.Vm.Alu.{adc_im, sbc_im, adc_im_d, sbc_im_d, rol, ror}
use dan.Vm.Alu.Status.{IsVnzc, to_bit}
use dan.Vm.Alu.Binary.{sum_overflows, difference_overflows, adc_im_lem, sbc_im_lem}
use dan.Vm.Alu.Decimal.{bcd, adc_im_d_lem, sbc_im_d_lem}
use dan.Vm.Alu.Shift.{rol-ror}
use dan.Vm.Decode.{switch, size}
use dan.Vm.Operand.{advance}
use dan.Vm.Ops.Load
use dan.Vm.Ops.Arith
use dan.Vm.Exec.{vm_exec}
use dan.Vm.FlatRam.{Ram, flat_ram, vm_ram_read}
use dan.Vm.Ops.Stack.{jsr, rts, brk, rti}
use dan.Vm.Ops.Stack.Pairs.{rts-jsr, rti-brk}

-- CLC, LDA #$50, ADC #$60, and then $02.
abbrev program : Ram
program p =
    if p == 0x1a00
    then 0x18
    else if p == 0x1a01
    then 0xa9
    else if p == 0x1a02
    then 0x50
    else if p == 0x1a03
    then 0x69
    else if p == 0x1a04
    then 0x60
    else 0x03

abbrev start : Vm Ram
start = record { r_a = 0; r_x = 0; r_y = 0; r_sp = 0xff; r_s = 0; r_pc = 0x1a00; ram = program }

abbrev no_syscall : ℕ → Vm Ram → Vm Ram
no_syscall n vm = vm

abbrev step : Vm Ram → Vm Ram
step vm = (vm_exec flat_ram no_syscall vm).0

sums : let vm = step (step (step start)) in (vm.r_a ≡ 0xb0) × (vm.r_s ≡ 0xc0) × (vm.r_pc ≡ 0x1a05)
unfolding vm_exec vm_ram_read switch advance Load.clear_flag size Load.lda Arith.adc
sums = (refl, refl, refl)

halts : (vm_exec flat_ram no_syscall (step (step (step start)))).1 ≡ false
unfolding vm_exec vm_ram_read switch advance Load.clear_flag size Load.lda Arith.adc
halts = refl

start-IsValid : IsValid start
start-IsValid = omega arith

adc_im_lem_example :
    let c = flag cf 0 in
    let (r, s') = adc_im 0x50 0x60 0 in
    (r ≡ (0x50 + 0x60 + c) % 256)
    × IsVnzc 0
        (to_bit (sum_overflows 0x50 0x60 c))
        (flag nf r)
        (to_bit (r == 0))
        ((0x50 + 0x60 + c) / 256)
        s'
adc_im_lem_example = adc_im_lem 0x50 0x60 0 (omega arith) (omega arith)

sbc_im_lem_example :
    let b = 1 - flag cf 1 in
    let (r, s') = sbc_im 0x50 0xb0 1 in
    (r ≡ (0x50 + 256 - 0xb0 - b) % 256)
    × IsVnzc 1
        (to_bit (difference_overflows 0x50 0xb0 b))
        (flag nf r)
        (to_bit (r == 0))
        (to_bit (leb (0xb0 + b) 0x50))
        s'
sbc_im_lem_example = sbc_im_lem 0x50 0xb0 1 (omega arith) (omega arith)

adc_im_d_lem_example :
    let c = flag cf 9 in
    let (r, s') = adc_im_d (bcd 58) (bcd 46) 9 in
    (r ≡ bcd ((58 + 46 + c) % 100)) × IsVnzc 9 0 0 (to_bit (r == 0)) ((58 + 46 + c) / 100) s'
adc_im_d_lem_example = adc_im_d_lem 58 46 9 (omega arith) (omega arith)

sbc_im_d_lem_example :
    let b = 1 - flag cf 9 in
    let (r, s') = sbc_im_d (bcd 12) (bcd 21) 9 in
    (r ≡ bcd ((12 + 100 - 21 - b) % 100))
    × IsVnzc 9 0 0 (to_bit (r == 0)) (to_bit (leb (21 + b) 12)) s'
sbc_im_d_lem_example = sbc_im_d_lem 12 21 9 (omega arith) (omega arith)

rol-ror_example :
    let (v, s') = ror 0x81 1 in let (t', s'') = rol v s' in (t' ≡ 0x81) × (flag cf s'' ≡ flag cf 1)
rol-ror_example = rol-ror 0x81 1 (omega arith)

rts-jsr_example :
    ((rts flat_ram (jsr flat_ram 0 0x20 start)).r_pc ≡ (0x1a00 + 3) % 65536)
    × ((rts flat_ram (jsr flat_ram 0 0x20 start)).r_sp ≡ 0xff)
rts-jsr_example =
    rts-jsr flat_ram start (jsr flat_ram 0 0x20 start) start-IsValid 0 0x20 (omega arith) refl
      (λ i k. refl)

rti-brk_example :
    ((rti flat_ram (brk flat_ram start)).r_pc ≡ (0x1a00 + 2) % 65536)
    × ((rti flat_ram (brk flat_ram start)).r_sp ≡ 0xff)
    × ((rti flat_ram (brk flat_ram start)).r_s ≡ bit_or (bit_or 0 0x20) 0x10)
rti-brk_example =
    rti-brk flat_ram start (brk flat_ram start) start-IsValid (omega arith) refl (λ i k. refl)
