-- ===== src/Vm/Ops/Stack.antt =====
-- The stack and control transfers of vm/vm.c. JMP, JSR, RTS, RTI and BRK set the program counter.
pub mod Pairs
use dan.Prelude.{ℕ, ◌+◌, ◌-◌, ◌/◌, bit_or, u8, u16, [], ◌∷◌, byte}
use dan.Vm.Bus.{Bus}
use dan.Vm.Flags.{intf, bf, sbit, addr16, set_nz}
use dan.Vm.State.{Vm}
use dan.Vm.Decode.{Mode}
use dan.Vm.Operand.{address, read_byte, read_word}

-- `addr16(r_sp - k, 1)`: the subtraction is done in `int`, so a negative difference keeps its sign
-- bits when the address is cut to sixteen bits.
unfoldable pub stack_below : ℕ → ℕ → ℕ
unfolding addr16
stack_below k sp = addr16 (u16 (sp + 65536 - k)) 1

-- `addr16(r_sp + 1, 1)`, in `int` too.
unfoldable pub stack_above : ℕ → ℕ
unfolding addr16
stack_above sp = addr16 (sp + 1) 1

-- `r_s | sbit(5) | sbit(Bf)`
unfoldable pub pushed_status : ℕ → ℕ
pushed_status s = bit_or (bit_or s (sbit 5)) (sbit bf)

module _ {M : Type 0} (bus : Bus M) where
  -- The write is at the old stack pointer.
  unfoldable pub push : ℕ → Vm M → Vm M
  unfolding addr16
  push v vm = record vm {
    r_sp = u8 (vm.r_sp + 255);
    ram = bus.ram_write vm.ram (addr16 vm.r_sp 1) (v ∷ []);
  }

  -- The read is at the new stack pointer.
  unfoldable pub pull : Vm M → ℕ
  unfolding addr16 read_byte
  pull vm = read_byte bus vm.ram (addr16 (u8 (vm.r_sp + 1)) 1)

  unfoldable pub pha : Vm M → Vm M
  unfolding push
  pha vm = push vm.r_a vm

  unfoldable pub php : Vm M → Vm M
  unfolding push pushed_status
  php vm = push (pushed_status vm.r_s) vm

  unfoldable pub pla : Vm M → Vm M
  unfolding pull set_nz
  pla vm = let v = pull vm in record vm { r_sp = u8 (vm.r_sp + 1); r_a = v; r_s = set_nz v vm.r_s }

  unfoldable pub plp : Vm M → Vm M
  unfolding pull
  plp vm = record vm { r_sp = u8 (vm.r_sp + 1); r_s = pull vm }

  unfoldable pub jmp : Mode → ℕ → ℕ → Vm M → Vm M
  unfolding address
  jmp m b1 b2 vm = record vm { r_pc = address bus m b1 b2 vm }

  unfoldable pub jsr : ℕ → ℕ → Vm M → Vm M
  unfolding addr16 stack_below
  jsr b1 b2 vm =
      let ret = u16 (vm.r_pc + 2) in
      record vm {
        r_pc = addr16 b1 b2;
        ram = bus.ram_write vm.ram (stack_below 1 vm.r_sp) (u8 ret ∷ (ret / 256) ∷ []);
        r_sp = u8 (vm.r_sp + 254);
      }

  unfoldable pub rts : Vm M → Vm M
  unfolding stack_above read_word
  rts vm = record vm {
    r_pc = u16 (read_word bus vm.ram (stack_above vm.r_sp) + 1);
    r_sp = u8 (vm.r_sp + 2);
  }

  unfoldable pub brk : Vm M → Vm M
  unfolding stack_below pushed_status read_word
  brk vm =
      let ret = u16 (vm.r_pc + 2) in
      let ram' =
        bus.ram_write vm.ram (stack_below 2 vm.r_sp)
          (pushed_status vm.r_s ∷ u8 ret ∷ u8 (ret / 256) ∷ []) in
      record vm {
        ram = ram';
        r_sp = u8 (vm.r_sp + 253);
        r_pc = read_word bus ram' 0xfffe;
        r_s = bit_or vm.r_s (sbit intf);
      }

  unfoldable pub rti : Vm M → Vm M
  unfolding stack_above addr16
  rti vm =
      let pt = bus.ram_read vm.ram (stack_above vm.r_sp) 3 in
      record vm { r_s = byte pt 0; r_pc = addr16 (byte pt 1) (byte pt 2); r_sp = u8 (vm.r_sp + 3) }
