-- ===== src/System/Syscall/Write.antt =====
-- What the system call `write` puts on the screen.
use dan.Prelude.{ℕ, ltb, if◌then◌else◌}
use dan.Vm.Bus.{Bus}
use dan.Vm.State.{Vm}
use dan.Editor.Cells.{cells}
use dan.Console.{Console, put_char, put_chars, put_char-IsValid}
use dan.Console
use dan.Console.Outside.{Outside}
use dan.System.{Machine, machine_ram, fill}

module _ {D : Type 0} (sram : Bus D) (font : ℕ → ℕ) where
  part_written : ℕ → ℕ → Machine D → Machine D
  part_written addr size m =
      let buffer = fill size ((machine_ram sram).ram_read m addr size) m.buffer in
      record m { buffer = buffer; console = put_chars sram font (cells buffer 0 size) m.console }

  abbrev part_size : ℕ → ℕ
  part_size count = if ltb count 64 then count else 64
