-- ===== src/Vm/Ops/Branch.antt =====
-- The conditional branches of vm/vm.c; `branch` moves the program counter whole.
use dan.Prelude.{ℕ, bit_and, not}
use dan.Vm.Flags.{cf, zf, vf, nf, sbit, test_n}
use dan.Vm.State.{Vm}
use dan.Vm.Alu.{is_set}
use dan.Vm.Operand.{branch}

module _ {M : Type 0} where
  unfoldable pub bpl : ℕ → Vm M → Vm M
  unfolding branch test_n
  bpl b1 vm = branch (not (is_set (test_n vm.r_s))) b1 vm

  unfoldable pub bmi : ℕ → Vm M → Vm M
  unfolding branch
  bmi b1 vm = branch (is_set (bit_and vm.r_s (sbit nf))) b1 vm

  unfoldable pub bcc : ℕ → Vm M → Vm M
  unfolding branch
  bcc b1 vm = branch (not (is_set (bit_and vm.r_s (sbit cf)))) b1 vm

  unfoldable pub bcs : ℕ → Vm M → Vm M
  unfolding branch
  bcs b1 vm = branch (is_set (bit_and vm.r_s (sbit cf))) b1 vm

  unfoldable pub bne : ℕ → Vm M → Vm M
  unfolding branch
  bne b1 vm = branch (not (is_set (bit_and vm.r_s (sbit zf)))) b1 vm

  unfoldable pub beq : ℕ → Vm M → Vm M
  unfolding branch
  beq b1 vm = branch (is_set (bit_and vm.r_s (sbit zf))) b1 vm

  unfoldable pub bvc : ℕ → Vm M → Vm M
  unfolding branch
  bvc b1 vm = branch (not (is_set (bit_and vm.r_s (sbit vf)))) b1 vm

  unfoldable pub bvs : ℕ → Vm M → Vm M
  unfolding branch
  bvs b1 vm = branch (is_set (bit_and vm.r_s (sbit vf))) b1 vm
