-- ===== src/System/Syscall.antt =====
-- `vm_syscall` of init/syscall.c, the system calls of the programs that the virtual machine runs.
pub mod Loops
pub mod Bounds
pub mod Print
pub mod Write
use dan.Prelude.{
  ℕ, zero, suc, ◌+◌, ◌-◌, ◌*◌, ◌==◌, ◌||◌, ◌&&◌, ltb, if◌then◌else◌, u8, u16, bit_and, Bool, true,
  false, Option, none, some, List, [], ◌∷◌, ◌++◌, byte, length, codes,
}
use dan.Vm.Bus.{Bus}
use dan.Vm.Flags.{addr16}
use dan.Vm.State.{Vm}
use dan.Dasm.Text.{hex2}
use dan.Console.{Console, put_char, put_chars}
use dan.Console.Screen.{video_put_char, video_put_tile}
use dan.Console.Screen.Clear.{video_cls}
use dan.Editor.{Editor, buffered_input}
use dan.Editor.Cells.{cells}
use dan.System.{Machine, machine_ram, say, fill}
use dan.System.Storage.{load, save}

-- What `keyboard_asc` returns next; without more keys it is 0.
abbrev pub next_key : List ℕ → ℕ × List ℕ
next_key [] = (0, [])
next_key (d ∷ keys) = (d, keys)

module _ {D : Type 0} (sram : Bus D) where
  -- `vm_ram_read(addr16(r_sp + 1, 1), v, n)`
  abbrev pub args : ℕ → Vm (Machine D) → ℕ → ℕ
  args n vm = byte ((machine_ram sram).ram_read vm.ram (addr16 (vm.r_sp + 1) 1) n)

-- What a system call does to the registers and the machine; `none` waits for a key that does not
-- come.
module _ {D : Type 0} (sram : Bus D) (font : ℕ → ℕ) where
  unfoldable pub sys_exit : Vm (Machine D) → Vm (Machine D)
  unfolding addr16
  sys_exit vm =
      let v = args sram 1 vm in
      let m = record vm.ram { prog_exit = 1 } in
      record vm {
        ram =
            if v 0 == 0
            then say sram font (codes "Ok\n") (codes "Ok\n") m
            else say sram font (codes "ERR: PRG %02x\n")
                (codes "ERR: PRG " ++ hex2 (v 0) ++ 10 ∷ []) m;
      }

  -- `r_a = load(addr, 1)` and `r_a = save(addr, addr + count, 1)`
  abbrev pub status : Vm (Machine D) → Option (ℕ × Machine D) → Option (Vm (Machine D))
  status vm none = none
  status vm (some (err, m)) = some (record vm { r_a = err; ram = m })

  unfoldable pub sys_load : Vm (Machine D) → Option (Vm (Machine D))
  unfolding addr16
  sys_load vm =
      let v = args sram 2 vm in
      let addr = addr16 (v 1) (v 0) in status vm (load sram font addr true vm.ram)

  unfoldable pub sys_save : Vm (Machine D) → Option (Vm (Machine D))
  unfolding addr16
  sys_save vm =
      let v = args sram 4 vm in
      let addr = addr16 (v 1) (v 0) in
      let count = addr16 (v 3) (v 2) in
      status vm (save sram font addr (u16 (addr + count)) true vm.ram)

  unfoldable pub sys_put_char : Vm (Machine D) → Vm (Machine D)
  unfolding addr16
  sys_put_char vm =
      let v = args sram 1 vm in
      let con = vm.ram.console in
      record vm {
        r_a = 0;
        ram = record vm.ram {
          console = record con { sram = video_put_char sram font con.x con.y (v 0) con.sram };
        };
      }

  -- The loop over the characters up to a 0, with the rounds left.
  unfoldable pub print_string : ℕ → ℕ → Vm (Machine D) → Option (Vm (Machine D))
  print_string zero addr vm = none
  print_string (suc n) addr vm =
      let c = byte ((machine_ram sram).ram_read vm.ram addr 1) 0 in
      let rest = print_string n (u16 (addr + 1)) (record vm {
        r_a = u8 (vm.r_a + 1);
        ram = record vm.ram { console = put_char sram font c vm.ram.console };
      }) in
      if c == 0 then some vm else rest

  unfoldable pub sys_put_string : ℕ → Vm (Machine D) → Option (Vm (Machine D))
  unfolding addr16
  sys_put_string rounds vm =
      let v = args sram 2 vm in print_string rounds (addr16 (v 1) (v 0)) (record vm { r_a = 0 })

  unfoldable pub sys_set_cursor : Vm (Machine D) → Vm (Machine D)
  unfolding addr16
  sys_set_cursor vm =
      let v = args sram 2 vm in
      if ltb 31 (v 0) || ltb 23 (v 1) then record vm { r_a = 1 } else record vm {
        r_a = 0;
        ram = record vm.ram { console = record vm.ram.console { x = v 0; y = v 1 } };
      }

  unfoldable pub sys_fill_screen : Vm (Machine D) → Vm (Machine D)
  unfolding addr16
  sys_fill_screen vm =
      let v = args sram 1 vm in
      let con = vm.ram.console in
      record vm {
        r_a = 0;
        ram = record vm.ram {
          console = record con { x = 0; y = 0; sram = video_cls sram font (v 0) con.sram };
        };
      }

  -- The loop of the system call `write`, with the rounds left.
  unfoldable pub write_parts : ℕ → ℕ → ℕ → Machine D → Machine D
  write_parts zero addr count m = m
  write_parts (suc n) addr count m =
      let size = if ltb count 64 then count else 64 in
      let buffer = fill size ((machine_ram sram).ram_read m addr size) m.buffer in
      let console = put_chars sram font (cells buffer 0 size) m.console in
      let rest =
        write_parts n (u16 (addr + size)) (count - size)
          (record m { buffer = buffer; console = console }) in
      if count == 0 then m else rest

  unfoldable pub sys_write : Vm (Machine D) → Vm (Machine D)
  unfolding addr16
  sys_write vm =
      let v = args sram 6 vm in
      let fd = addr16 (v 1) (v 0) in
      let addr = addr16 (v 3) (v 2) in
      let count = addr16 (v 5) (v 4) in
      if ltb 0 fd && ltb fd 3 && ltb 0 count
      then record vm { r_a = u8 count; ram = write_parts count addr count vm.ram }
      else record vm { r_a = 0 }

  unfoldable pub sys_get_char : Vm (Machine D) → Vm (Machine D)
  sys_get_char vm =
      let (c, keys) = next_key vm.ram.keys in
      record vm { r_a = u8 c; ram = record vm.ram { keys = keys } }

  -- What `buffered_input` returns is stored at the address, and its number of bytes in `r_a`.
  abbrev pub got : ℕ → Vm (Machine D) → Option (ℕ × Editor D × List ℕ) → Option (Vm (Machine D))
  got addr vm none = none
  got addr vm (some (n, e, keys)) =
      let m = record vm.ram { console = e.console; buffer = e.buffer; keys = keys } in
      some (record vm {
        r_a = u8 n;
        ram = (machine_ram sram).ram_write m addr (cells e.buffer 0 (u8 n));
      })

  unfoldable pub sys_get_input : Vm (Machine D) → Option (Vm (Machine D))
  unfolding addr16
  sys_get_input vm =
      let v = args sram 3 vm in
      got (addr16 (v 1) (v 0)) vm (
        buffered_input sram font vm.ram.buffer (if ltb (v 2) 64 then v 2 else 64) vm.ram.keys
          vm.ram.console)

  -- The loop of the system call `read`, over what `keyboard_asc` returns.
  unfoldable pub read_keys : List ℕ → ℕ → ℕ → Vm (Machine D) → Option (Vm (Machine D))
  read_keys keys zero addr vm = some (record vm { ram = record vm.ram { keys = keys } })
  read_keys [] (suc n) addr vm = none
  read_keys (d ∷ keys) (suc n) addr vm =
      let m = record vm.ram { console = put_char sram font d vm.ram.console } in
      let written = (machine_ram sram).ram_write m addr ((if d == 0x0a then 10 else d) ∷ []) in
      let stored =
        read_keys keys n (u16 (addr + 1)) (record vm { r_a = u8 (vm.r_a + 1); ram = written }) in
      let skipped = read_keys keys (suc n) addr vm in if d == 0 then skipped else stored

  unfoldable pub sys_read : Vm (Machine D) → Option (Vm (Machine D))
  unfolding addr16
  sys_read vm =
      let v = args sram 6 vm in
      let fd = addr16 (v 1) (v 0) in
      let addr = addr16 (v 3) (v 2) in
      let count = addr16 (v 5) (v 4) in
      if (fd == 0) && ltb 0 count
      then read_keys vm.ram.keys count addr (record vm { r_a = 0 })
      else some (record vm { r_a = 0 })

  unfoldable pub sys_put_tile : Vm (Machine D) → Vm (Machine D)
  unfolding addr16
  sys_put_tile vm =
      let v = args sram 2 vm in
      let con = vm.ram.console in
      let buffer =
        fill 8 ((machine_ram sram).ram_read vm.ram (addr16 (v 1) (v 0)) 8) vm.ram.buffer in
      record vm {
        ram = record vm.ram {
          buffer = buffer;
          console = record con {
            sram = video_put_tile sram con.x con.y (cells buffer 0 8) con.sram;
          };
        };
      }

  unfoldable pub sys_unknown : ℕ → Vm (Machine D) → Vm (Machine D)
  sys_unknown func vm = record vm {
    ram =
        say sram font (codes "ERR: SYS %02x\n") (codes "ERR: SYS " ++ hex2 func ++ 10 ∷ [])
          (record vm.ram { prog_exit = 1 });
  }

  -- `rand` gives a number and the next state of the generator, and `srand` a state for a seed.
  module _ (rand : ℕ → ℕ × ℕ) (srand : ℕ → ℕ) where
    unfoldable pub sys_rand : Vm (Machine D) → Vm (Machine D)
    sys_rand vm =
        let (n, seed) = rand vm.ram.seed in
        record vm { r_a = bit_and n 255; ram = record vm.ram { seed = seed } }

    unfoldable pub sys_srand : Vm (Machine D) → Vm (Machine D)
    unfolding addr16
    sys_srand vm =
        let v = args sram 2 vm in
        record vm { r_a = 0; ram = record vm.ram { seed = srand (addr16 (v 1) (v 0)) } }

    -- The switch, with the rounds for the loop of the system call that prints a string; to wait for
    -- the vertical synchronisation changes nothing.
    unfoldable pub vm_syscall : ℕ → ℕ → Vm (Machine D) → Option (Vm (Machine D))
    vm_syscall rounds func vm =
        if func == 0x00
        then some (sys_exit vm)
        else if func == 0x01
        then sys_load vm
        else if func == 0x02
        then sys_save vm
        else if func == 0x10
        then some (sys_put_char vm)
        else if func == 0x11
        then sys_put_string rounds vm
        else if func == 0x12
        then some (sys_set_cursor vm)
        else if func == 0x13
        then some (sys_fill_screen vm)
        else if func == 0x14
        then some (sys_write vm)
        else if func == 0x20
        then some (sys_get_char vm)
        else if func == 0x21
        then sys_get_input vm
        else if func == 0x22
        then sys_read vm
        else if func == 0x30
        then some (sys_put_tile vm)
        else if func == 0xa0
        then some (sys_rand vm)
        else if func == 0xa1
        then some vm
        else if func == 0xa2
        then some (sys_srand vm)
        else if func == 0xf0
        then some (record vm { r_a = 1 })
        else some (sys_unknown func vm)
