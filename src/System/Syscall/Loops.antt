-- ===== src/System/Syscall/Loops.antt =====
-- The bounds on a state of the machine, and that the loops of init/syscall.c keep them.
use dan.Prelude.{
  ℕ, zero, suc, ◌+◌, ◌<◌, ◌≤◌, ◌==◌, if◌then◌else◌, both_branches, u8, u16, Option, none, some,
  List, [], ◌∷◌, arith,
}
use dan.Vm.Bus.{Bus}
use dan.Vm.State.{Vm, IsValid}
use dan.Console.{Console, put_char, put_chars}
use dan.System.{Machine, machine_ram}
use dan.System.Syscall.{print_string, write_parts, read_keys}

-- What the cursor is known to keep: a property of the console that characters, other memory under
-- the screen, and a cursor put on the screen preserve.
pub record KeepsCursor {D : Type 0} (sram : Bus D) (font : ℕ → ℕ) (C : Console D → Type 0)
    : Type 0 where
  pub put_in : (c : ℕ) (con : Console D) → C con → C (put_char sram font c con)
  pub over_in : (con : Console D) (d : D) → C con → C (record con { sram = d })
  pub placed_in :
      (con : Console D) (x y : ℕ) (d : D)
      → x ≤ 31
      → y ≤ 23
      → C (record con { x = x; y = y; sram = d })

module _ {D : Type 0} (C : Console D → Type 0) where
  -- The registers are within their widths, and the console has the property.
  pub record InBounds (vm : Vm (Machine D)) : Type 0 where
    pub registers : IsValid vm
    pub cursor : C vm.ram.console

  -- The state that a system call returns, if it does.
  unfoldable pub Returns : Option (Vm (Machine D)) → Type 0
  Returns none = Unit
  Returns (some vm) = InBounds vm

  pub some-Returns : (vm : Vm (Machine D)) → InBounds vm → Returns (some vm)
  unfolding Returns
  some-Returns vm v = v

  -- Another accumulator and another machine.
  pub with_a :
      (vm : Vm (Machine D)) (a : ℕ) (m : Machine D)
      → InBounds vm
      → a < 256
      → C m.console
      → InBounds (record vm { r_a = a; ram = m })
  with_a vm a m v h con = record {
    registers = record {
      a_byte = h;
      x_byte = v.registers.x_byte;
      y_byte = v.registers.y_byte;
      sp_byte = v.registers.sp_byte;
      s_byte = v.registers.s_byte;
      pc_word = v.registers.pc_word;
    };
    cursor = con;
  }

  pub a-Returns :
      (vm : Vm (Machine D)) (a : ℕ) (m : Machine D)
      → InBounds vm
      → a < 256
      → C m.console
      → Returns (some (record vm { r_a = a; ram = m }))
  a-Returns vm a m v h con = some-Returns _ (with_a vm a m v h con)

module _ {D : Type 0} (sram : Bus D) (font : ℕ → ℕ) (C : Console D → Type 0)
    (kept : KeepsCursor sram font C) where
  pub puts_in : (cs : List ℕ) (con : Console D) → C con → C (put_chars sram font cs con)
  unfolding put_chars
  puts_in [] con v = v
  puts_in (c ∷ cs) con v = puts_in cs (put_char sram font c con) (kept.put_in c con v)

  pub print_string-Returns :
      (n addr : ℕ) (vm : Vm (Machine D))
      → InBounds C vm
      → Returns C (print_string sram font n addr vm)
  unfolding print_string
  print_string-Returns zero addr vm v = unfold Returns in record {}
  print_string-Returns (suc n) addr vm v =
      both_branches (Returns C) _ (some-Returns C _ v)
        (print_string-Returns n _ _ (with_a C vm _ _ v (omega arith) (kept.put_in _ _ v.cursor)))

  pub write_parts_in :
      (n addr count : ℕ) (m : Machine D)
      → C m.console
      → C (write_parts sram font n addr count m).console
  unfolding write_parts
  write_parts_in zero addr count m v = v
  write_parts_in (suc n) addr count m v =
      both_branches (λ (r : Machine D). C r.console) (count == 0) v
        (write_parts_in n _ _ _ (puts_in _ _ v))

  pub read_keys-Returns :
      (keys : List ℕ) (n addr : ℕ) (vm : Vm (Machine D))
      → InBounds C vm
      → Returns C (read_keys sram font keys n addr vm)
  unfolding read_keys
  read_keys-Returns keys zero addr vm v = a-Returns C vm _ _ v v.registers.a_byte v.cursor
  read_keys-Returns [] (suc n) addr vm v = unfold Returns in record {}
  read_keys-Returns (d ∷ keys) (suc n) addr vm v =
      let shown = record vm.ram { console = put_char sram font d vm.ram.console } in
      let m = (machine_ram sram).ram_write shown addr ((if d == 0x0a then 10 else d) ∷ []) in
      both_branches (Returns C) (d == 0) (read_keys-Returns keys (suc n) addr vm v) (
        read_keys-Returns keys n (u16 (addr + 1)) (record vm { r_a = u8 (vm.r_a + 1); ram = m })
          (with_a C vm (u8 (vm.r_a + 1)) m v (omega arith)
            (kept.over_in shown.console _ (kept.put_in d vm.ram.console v.cursor))))
