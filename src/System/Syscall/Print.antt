-- ===== src/System/Syscall/Print.antt =====
-- What the system call that prints a zstring puts on the screen.
use dan.Prelude.{ℕ, ◌+◌, ◌≡◌, ap, ltb, if◌then◌else◌, u8, List}
use dan.Vm.Bus.{Bus}
use dan.Vm.State.{Vm}
use dan.Console.{Console, put_char, put_chars, put_chars-IsValid}
use dan.Console
use dan.Console.Outside.{Outside, put_chars-outside}
use dan.System.{Machine, machine_ram}

module _ {D : Type 0} (sram : Bus D) where
  -- The byte at an address of the machine.
  abbrev pub at : Machine D → ℕ → ℕ
  at m = (machine_ram sram).peek m

  module _ (font : ℕ → ℕ) where
    -- Printing leaves the memory outside the screen.
    pub at-printed :
        (m : Machine D) (buffer : ℕ → ℕ) (cs : List ℕ) (p : ℕ)
        → Console.IsValid m.console
        → Outside p
        → at (record m { buffer = buffer; console = put_chars sram font cs m.console }) p ≡ at m p
    at-printed m buffer cs p v out =
        ap (λ (b : ℕ). if ltb p 512 then u8 (m.local p) else b)
          (put_chars-outside sram p out font cs m.console v)

    abbrev pub printed : List ℕ → ℕ → Vm (Machine D) → Vm (Machine D)
    printed cs a vm = record vm {
      r_a = a;
      ram = record vm.ram { console = put_chars sram font cs vm.ram.console };
    }

    next_char : ℕ → Vm (Machine D) → Vm (Machine D)
    next_char c vm = record vm {
      r_a = u8 (vm.r_a + 1);
      ram = record vm.ram { console = put_char sram font c vm.ram.console };
    }
