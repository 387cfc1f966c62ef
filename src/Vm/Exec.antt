-- ===== src/Vm/Exec.antt =====
-- `vm_exec`: fetch, the switch, and the program counter at the end. `vm_syscall` is externally
-- defined for vm/vm.c, and a parameter here.
use dan.Prelude.{ℕ, Bool, true, false, none, some, byte}
use dan.Vm.Bus.{Bus}
use dan.Vm.Flags.{cf, intf, df, vf}
use dan.Vm.State.{Vm}
use dan.Vm.Decode.{Instr, Mode, switch, size}
use dan.Vm.Operand.{advance}
use dan.Vm.Ops.Load
use dan.Vm.Ops.Arith
use dan.Vm.Ops.Shift
use dan.Vm.Ops.Branch
use dan.Vm.Ops.Stack

module _ {M : Type 0} (bus : Bus M) (vm_syscall : ℕ → Vm M → Vm M) where
  -- The code behind the case labels of an instruction, up to the end of `vm_exec`.
  unfoldable pub execute : Instr → Mode → ℕ → ℕ → Vm M → Vm M
  execute Instr.sys m b1 b2 vm = advance (size m) (vm_syscall vm.r_a vm)
  execute Instr.tax m b1 b2 vm = advance (size m) (Load.tax vm)
  execute Instr.tay m b1 b2 vm = advance (size m) (Load.tay vm)
  execute Instr.txa m b1 b2 vm = advance (size m) (Load.txa vm)
  execute Instr.tya m b1 b2 vm = advance (size m) (Load.tya vm)
  execute Instr.tsx m b1 b2 vm = advance (size m) (Load.tsx vm)
  execute Instr.txs m b1 b2 vm = advance (size m) (Load.txs vm)
  execute Instr.sec m b1 b2 vm = advance (size m) (Load.set_flag cf vm)
  execute Instr.sed m b1 b2 vm = advance (size m) (Load.set_flag df vm)
  execute Instr.sei m b1 b2 vm = advance (size m) (Load.set_flag intf vm)
  execute Instr.clc m b1 b2 vm = advance (size m) (Load.clear_flag cf vm)
  execute Instr.cld m b1 b2 vm = advance (size m) (Load.clear_flag df vm)
  execute Instr.cli m b1 b2 vm = advance (size m) (Load.clear_flag intf vm)
  execute Instr.clv m b1 b2 vm = advance (size m) (Load.clear_flag vf vm)
  execute Instr.lda m b1 b2 vm = advance (size m) (Load.lda bus m b1 b2 vm)
  execute Instr.ldx m b1 b2 vm = advance (size m) (Load.ldx bus m b1 b2 vm)
  execute Instr.ldy m b1 b2 vm = advance (size m) (Load.ldy bus m b1 b2 vm)
  execute Instr.sta m b1 b2 vm = advance (size m) (Load.sta bus m b1 b2 vm)
  execute Instr.stx m b1 b2 vm = advance (size m) (Load.stx bus m b1 b2 vm)
  execute Instr.sty m b1 b2 vm = advance (size m) (Load.sty bus m b1 b2 vm)
  execute Instr.adc m b1 b2 vm = advance (size m) (Arith.adc bus m b1 b2 vm)
  execute Instr.sbc m b1 b2 vm = advance (size m) (Arith.sbc bus m b1 b2 vm)
  execute Instr.and m b1 b2 vm = advance (size m) (Arith.and bus m b1 b2 vm)
  execute Instr.ora m b1 b2 vm = advance (size m) (Arith.ora bus m b1 b2 vm)
  execute Instr.eor m b1 b2 vm = advance (size m) (Arith.eor bus m b1 b2 vm)
  execute Instr.bit m b1 b2 vm = advance (size m) (Arith.bit bus m b1 b2 vm)
  execute Instr.cmp m b1 b2 vm = advance (size m) (Arith.cmp bus m b1 b2 vm)
  execute Instr.cpx m b1 b2 vm = advance (size m) (Arith.cpx bus m b1 b2 vm)
  execute Instr.cpy m b1 b2 vm = advance (size m) (Arith.cpy bus m b1 b2 vm)
  execute Instr.inc m b1 b2 vm = advance (size m) (Arith.inc bus m b1 b2 vm)
  execute Instr.dec m b1 b2 vm = advance (size m) (Arith.dec bus m b1 b2 vm)
  execute Instr.inx m b1 b2 vm = advance (size m) (Arith.inx vm)
  execute Instr.iny m b1 b2 vm = advance (size m) (Arith.iny vm)
  execute Instr.dex m b1 b2 vm = advance (size m) (Arith.dex vm)
  execute Instr.dey m b1 b2 vm = advance (size m) (Arith.dey vm)
  execute Instr.asl m b1 b2 vm = advance (size m) (Shift.asl bus m b1 b2 vm)
  execute Instr.rol m b1 b2 vm = advance (size m) (Shift.rol bus m b1 b2 vm)
  execute Instr.lsr m b1 b2 vm = advance (size m) (Shift.lsr bus m b1 b2 vm)
  execute Instr.ror m b1 b2 vm = advance (size m) (Shift.ror bus m b1 b2 vm)
  execute Instr.nop m b1 b2 vm = advance (size m) (vm)
  execute Instr.pha m b1 b2 vm = advance (size m) (Stack.pha bus vm)
  execute Instr.php m b1 b2 vm = advance (size m) (Stack.php bus vm)
  execute Instr.pla m b1 b2 vm = advance (size m) (Stack.pla bus vm)
  execute Instr.plp m b1 b2 vm = advance (size m) (Stack.plp bus vm)
  execute Instr.bpl m b1 b2 vm = Branch.bpl b1 vm
  execute Instr.bmi m b1 b2 vm = Branch.bmi b1 vm
  execute Instr.bcc m b1 b2 vm = Branch.bcc b1 vm
  execute Instr.bcs m b1 b2 vm = Branch.bcs b1 vm
  execute Instr.bne m b1 b2 vm = Branch.bne b1 vm
  execute Instr.beq m b1 b2 vm = Branch.beq b1 vm
  execute Instr.bvc m b1 b2 vm = Branch.bvc b1 vm
  execute Instr.bvs m b1 b2 vm = Branch.bvs b1 vm
  execute Instr.jmp m b1 b2 vm = Stack.jmp bus m b1 b2 vm
  execute Instr.jsr m b1 b2 vm = Stack.jsr bus b1 b2 vm
  execute Instr.rts m b1 b2 vm = Stack.rts bus vm
  execute Instr.rti m b1 b2 vm = Stack.rti bus vm
  execute Instr.brk m b1 b2 vm = Stack.brk bus vm

  -- The new state, and whether `vm_exec` returns 1; it returns 0 at the default label.
  unfoldable pub vm_exec : Vm M → Vm M × Bool
  unfolding execute
  vm_exec vm =
      let pt = bus.ram_read vm.ram vm.r_pc 3 in
      elim (switch (byte pt 0)) [
        | none ↦ (vm, false)
        | some c ↦ (execute c.instr c.mode (byte pt 1) (byte pt 2) vm, true)
      ]
