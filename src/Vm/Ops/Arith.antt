-- ===== src/Vm/Ops/Arith.antt =====
-- The logic, arithmetic, comparison and counting instructions of vm/vm.c.
use dan.Prelude.{ℕ, ◌+◌, bit_and, bit_or, bit_xor, u8}
use dan.Vm.Bus.{Bus}
use dan.Vm.Flags.{nf, zf, vf, sbit, test_n, test_v, test_z, clear, set_nz}
use dan.Vm.State.{Vm}
use dan.Vm.Alu.{compare_flags}
use dan.Vm.Alu
use dan.Vm.Decode.{Mode}
use dan.Vm.Operand.{operand, write_back}

module _ {M : Type 0} (bus : Bus M) where
  -- The three logic groups differ in the operator.
  unfoldable pub logic : (ℕ → ℕ → ℕ) → Mode → ℕ → ℕ → Vm M → Vm M
  unfolding operand set_nz
  logic f m b1 b2 vm =
      let v = f vm.r_a (operand bus m b1 b2 vm) in record vm { r_a = v; r_s = set_nz v vm.r_s }

  unfoldable pub eor : Mode → ℕ → ℕ → Vm M → Vm M
  unfolding logic
  eor = logic bit_xor

  unfoldable pub and : Mode → ℕ → ℕ → Vm M → Vm M
  unfolding logic
  and = logic bit_and

  unfoldable pub ora : Mode → ℕ → ℕ → Vm M → Vm M
  unfolding logic
  ora = logic bit_or

  unfoldable pub bit : Mode → ℕ → ℕ → Vm M → Vm M
  unfolding operand clear test_n test_v test_z
  bit m b1 b2 vm =
      let t = operand bus m b1 b2 vm in
      record vm {
        r_s =
            bit_or (clear (bit_or (bit_or (sbit nf) (sbit vf)) (sbit zf)) vm.r_s)
              (bit_or (bit_or (test_n t) (test_v t)) (test_z (bit_and t vm.r_a)));
      }

  unfoldable pub adc : Mode → ℕ → ℕ → Vm M → Vm M
  unfolding operand Alu.adc
  adc m b1 b2 vm =
      let (v, s) = Alu.adc vm.r_a (operand bus m b1 b2 vm) vm.r_s in record vm { r_a = v; r_s = s }

  unfoldable pub sbc : Mode → ℕ → ℕ → Vm M → Vm M
  unfolding operand Alu.sbc
  sbc m b1 b2 vm =
      let (v, s) = Alu.sbc vm.r_a (operand bus m b1 b2 vm) vm.r_s in record vm { r_a = v; r_s = s }

  unfoldable pub cmp : Mode → ℕ → ℕ → Vm M → Vm M
  unfolding operand compare_flags
  cmp m b1 b2 vm = record vm { r_s = compare_flags vm.r_a (operand bus m b1 b2 vm) vm.r_s }

  unfoldable pub cpx : Mode → ℕ → ℕ → Vm M → Vm M
  unfolding operand compare_flags
  cpx m b1 b2 vm = record vm { r_s = compare_flags vm.r_x (operand bus m b1 b2 vm) vm.r_s }

  unfoldable pub cpy : Mode → ℕ → ℕ → Vm M → Vm M
  unfolding operand compare_flags
  cpy m b1 b2 vm = record vm { r_s = compare_flags vm.r_y (operand bus m b1 b2 vm) vm.r_s }

  -- The memory is written before the status register changes, at the address computed first.
  unfoldable pub inc : Mode → ℕ → ℕ → Vm M → Vm M
  unfolding operand write_back set_nz
  inc m b1 b2 vm =
      let t = u8 (operand bus m b1 b2 vm + 1) in
      record (write_back bus m b1 b2 t vm) { r_s = set_nz t vm.r_s }

  unfoldable pub dec : Mode → ℕ → ℕ → Vm M → Vm M
  unfolding operand write_back set_nz
  dec m b1 b2 vm =
      let t = u8 (operand bus m b1 b2 vm + 255) in
      record (write_back bus m b1 b2 t vm) { r_s = set_nz t vm.r_s }

module _ {M : Type 0} where
  unfoldable pub inx : Vm M → Vm M
  unfolding set_nz
  inx vm = let v = u8 (vm.r_x + 1) in record vm { r_x = v; r_s = set_nz v vm.r_s }

  unfoldable pub iny : Vm M → Vm M
  unfolding set_nz
  iny vm = let v = u8 (vm.r_y + 1) in record vm { r_y = v; r_s = set_nz v vm.r_s }

  unfoldable pub dex : Vm M → Vm M
  unfolding set_nz
  dex vm = let v = u8 (vm.r_x + 255) in record vm { r_x = v; r_s = set_nz v vm.r_s }

  unfoldable pub dey : Vm M → Vm M
  unfolding set_nz
  dey vm = let v = u8 (vm.r_y + 255) in record vm { r_y = v; r_s = set_nz v vm.r_s }
