-- ===== src/Vm/Ops/Load.antt =====
-- Loads, stores, transfers between registers, and the flag instructions of vm/vm.c.
use dan.Prelude.{ℕ, bit_or}
use dan.Vm.Bus.{Bus}
use dan.Vm.Flags.{sbit, clear, set_nz}
use dan.Vm.State.{Vm}
use dan.Vm.Decode.{Mode}
use dan.Vm.Operand.{address, operand, write_byte}

module _ {M : Type 0} (bus : Bus M) where
  unfoldable pub lda : Mode → ℕ → ℕ → Vm M → Vm M
  unfolding operand set_nz
  lda m b1 b2 vm = let v = operand bus m b1 b2 vm in record vm { r_a = v; r_s = set_nz v vm.r_s }

  unfoldable pub ldx : Mode → ℕ → ℕ → Vm M → Vm M
  unfolding operand set_nz
  ldx m b1 b2 vm = let v = operand bus m b1 b2 vm in record vm { r_x = v; r_s = set_nz v vm.r_s }

  unfoldable pub ldy : Mode → ℕ → ℕ → Vm M → Vm M
  unfolding operand set_nz
  ldy m b1 b2 vm = let v = operand bus m b1 b2 vm in record vm { r_y = v; r_s = set_nz v vm.r_s }

  unfoldable pub sta : Mode → ℕ → ℕ → Vm M → Vm M
  unfolding address write_byte
  sta m b1 b2 vm = write_byte bus (address bus m b1 b2 vm) vm.r_a vm

  unfoldable pub stx : Mode → ℕ → ℕ → Vm M → Vm M
  unfolding address write_byte
  stx m b1 b2 vm = write_byte bus (address bus m b1 b2 vm) vm.r_x vm

  unfoldable pub sty : Mode → ℕ → ℕ → Vm M → Vm M
  unfolding address write_byte
  sty m b1 b2 vm = write_byte bus (address bus m b1 b2 vm) vm.r_y vm

module _ {M : Type 0} where
  unfoldable pub tax : Vm M → Vm M
  unfolding set_nz
  tax vm = record vm { r_x = vm.r_a; r_s = set_nz vm.r_a vm.r_s }

  unfoldable pub tay : Vm M → Vm M
  unfolding set_nz
  tay vm = record vm { r_y = vm.r_a; r_s = set_nz vm.r_a vm.r_s }

  unfoldable pub txa : Vm M → Vm M
  unfolding set_nz
  txa vm = record vm { r_a = vm.r_x; r_s = set_nz vm.r_x vm.r_s }

  unfoldable pub tya : Vm M → Vm M
  unfolding set_nz
  tya vm = record vm { r_a = vm.r_y; r_s = set_nz vm.r_y vm.r_s }

  unfoldable pub tsx : Vm M → Vm M
  unfolding set_nz
  tsx vm = record vm { r_x = vm.r_sp; r_s = set_nz vm.r_sp vm.r_s }

  -- TXS sets no flag.
  unfoldable pub txs : Vm M → Vm M
  txs vm = record vm { r_sp = vm.r_x }

  -- SEC, SED, SEI; CLC, CLD, CLI, CLV.
  unfoldable pub set_flag : ℕ → Vm M → Vm M
  set_flag f vm = record vm { r_s = bit_or vm.r_s (sbit f) }

  unfoldable pub clear_flag : ℕ → Vm M → Vm M
  unfolding clear
  clear_flag f vm = record vm { r_s = clear (sbit f) vm.r_s }
