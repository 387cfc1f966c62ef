-- ===== src/Vm/Ops/Shift.antt =====
-- The shift and rotate instructions of vm/vm.c.
use dan.Prelude.{ℕ}
use dan.Vm.Bus.{Bus}
use dan.Vm.State.{Vm}
use dan.Vm.Alu
use dan.Vm.Decode.{Mode}
use dan.Vm.Operand.{operand, write_back}

module _ {M : Type 0} (bus : Bus M) where
  -- Read, compute, write back, set the status register.
  unfoldable pub shift : (ℕ → ℕ → ℕ × ℕ) → Mode → ℕ → ℕ → Vm M → Vm M
  unfolding operand write_back
  shift f m b1 b2 vm =
      let (t, s) = f (operand bus m b1 b2 vm) vm.r_s in
      record (write_back bus m b1 b2 t vm) { r_s = s }

  unfoldable pub asl : Mode → ℕ → ℕ → Vm M → Vm M
  unfolding shift Alu.asl
  asl = shift Alu.asl

  unfoldable pub rol : Mode → ℕ → ℕ → Vm M → Vm M
  unfolding shift Alu.rol
  rol = shift Alu.rol

  unfoldable pub lsr : Mode → ℕ → ℕ → Vm M → Vm M
  unfolding shift Alu.lsr
  lsr = shift Alu.lsr

  unfoldable pub ror : Mode → ℕ → ℕ → Vm M → Vm M
  unfolding shift Alu.ror
  ror = shift Alu.ror
