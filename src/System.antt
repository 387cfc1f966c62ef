-- ===== src/System.antt =====
-- The whole machine of init/main.c and init/syscall.c: the global variables that the commands and
-- the system calls share, over the serial RAM.
pub mod Storage
pub mod Syscall
pub mod Run
pub mod Commands
pub mod Main
mod Examples
use dan.Prelude.{
  ℕ, zero, suc, ◌+◌, ◌-◌, ◌==◌, ltb, if◌then◌else◌, u8, u16, Bool, List, [], ◌∷◌, ◌++◌, byte,
  length,
}
use dan.Vm.Bus.{Bus}
use dan.Vm.FlatRam.{Ram}
use dan.Memory.Paged.{Paged}
use dan.Memory.Paged
use dan.Memory.Paged.Refine.{paged_ram}
use dan.Console.{Console, put_chars}

-- `local` of init/syscall.c; `x`, `y` and the serial RAM in the console; `buffer` and `prog_exit` of
-- init/main.c. The rest is what comes from outside: what `keyboard_asc` returns, call by call; the
-- bytes that `ain_get` gives before the timeout, for each `load`; and what `aout_err` returns, call
-- by call. `sent` are the samples that `save` has put with `ain_put`, the newest first, and `seed` is the state of
-- `rand`. `stalled` is raised by a system call that does not return.
pub record Machine (D : Type 0) : Type 0 where
  pub local : Ram
  pub console : Console D
  pub buffer : ℕ → ℕ
  pub prog_exit : ℕ
  pub keys : List ℕ
  pub tapes : List (List ℕ)
  pub errors : List ℕ
  pub sent : List ℕ
  pub seed : ℕ
  pub stalled : Bool

module _ {D : Type 0} where
  abbrev pub paged : Machine D → Paged D
  paged m = record { local = m.local; sram = m.console.sram }

  abbrev pub repaged : Machine D → Paged D → Machine D
  repaged m p = record m { local = p.local; console = record m.console { sram = p.sram } }

-- The first bytes of a list in front of what a buffer holds, as a transfer into it leaves them.
abbrev pub fill : ℕ → List ℕ → (ℕ → ℕ) → ℕ → ℕ
fill n bs buffer p = if ltb p n then byte bs p else buffer p

module _ {D : Type 0} (sram : Bus D) where
  -- `vm_ram_read` and `vm_ram_write` of init/syscall.c, as the machine's memory.
  abbrev pub machine_ram : Bus (Machine D)
  machine_ram = record {
    peek = λ m. (paged_ram sram).peek (paged m);
    ram_read = λ m. (paged_ram sram).ram_read (paged m);
    ram_write = λ m a bs. repaged m ((paged_ram sram).ram_write (paged m) a bs);
    ram_read_lem = λ m. (paged_ram sram).ram_read_lem (paged m);
    ram_write_lem = λ m. (paged_ram sram).ram_write_lem (paged m);
    ram_read-IsByte = λ m. (paged_ram sram).ram_read-IsByte (paged m);
  }

  module _ (font : ℕ → ℕ) where
    -- `put_string` of a text that `vsnprintf` made.
    abbrev pub print : List ℕ → Machine D → Machine D
    print text m = record m { console = put_chars sram font text m.console }

    -- `strcpy_P` of a format to the buffer, and `put_string` of what it gives.
    abbrev pub say : List ℕ → List ℕ → Machine D → Machine D
    say format text m =
        print text (record m { buffer = fill (length format + 1) (format ++ 0 ∷ []) m.buffer })
