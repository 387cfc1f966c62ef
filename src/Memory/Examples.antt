-- ===== src/Memory/Examples.antt =====
-- A chip of the kind that memory/mem.c asks for, and the theorems about the memories on it.
use dan.Prelude.{ℕ, ◌+◌, ◌*◌, ◌≡◌, ◌==◌, refl, if◌then◌else◌, u16, arith, [], ◌∷◌}
use dan.Vm.FlatRam.{Ram, cell, vm_ram_write}
use dan.Memory.Chip.{
  Chip, Direction, reading, writing, instruction, Mode, idle, command, address_high, address_low,
  burst,
}
use dan.Memory.Sram.{sram_write, sram_write_lem}
use dan.Memory.Sram.Flat.{serial_ram}
use dan.Memory.Paged.{Paged}
use dan.Memory.Paged
use dan.Memory.Paged.Refine.{peek, write_paged, written_paged}

record Device : Type 0 where
  phase : Mode
  ram : Ram

abbrev respond : Mode → Ram → ℕ → ℕ × Device
respond idle m b = (0, record { phase = idle; ram = m })
respond command m b =
    (0, record { phase = address_high (if b == 0x03 then reading else writing); ram = m })
respond (address_high w) m b = (0, record { phase = address_low w b; ram = m })
respond (address_low w h) m b = (0, record { phase = burst w (h * 256 + b); ram = m })
respond (burst writing a) m b =
    (0, record { phase = burst writing (u16 (a + 1)); ram = λ p. if p == a then b else m p })
respond (burst reading a) m b = (cell m a, record { phase = burst reading (u16 (a + 1)); ram = m })

abbrev transfer : Device → ℕ → ℕ × Device
transfer d b = respond d.phase d.ram b

abbrev same : Device → Mode → Device
same d p = record { phase = p; ram = d.ram }

command_step :
    (d : Device) (w : Direction)
    → d.phase ≡ command
    → ((transfer d (instruction w)).1.phase ≡ address_high w)
      × ((transfer d (instruction w)).1.ram ≡ d.ram)
command_step d reading h = rw h (refl, refl)
command_step d writing h = rw h (refl, refl)

abbrev device : Chip Device
device = record {
  mode = λ d. d.phase;
  cells = λ d. d.ram;
  select = λ d. same d command;
  deselect = λ d. same d idle;
  transfer = transfer;
  select_lem = λ d. (refl, refl);
  deselect_lem = λ d. refl;
  transfer-command = command_step;
  transfer-high = λ d w b h. rw h (refl, refl);
  transfer-low = λ d w a b h. rw h (refl, refl);
  transfer-write = λ d a b h. rw h (refl, refl);
  transfer-read = λ d a b h. rw h (refl, refl, refl);
}

abbrev empty : Device
empty = record { phase = idle; ram = λ _. 0 }

sram_write_lem_example :
    (sram_write device empty 0xffff (7 ∷ 8 ∷ [])).ram
    ≡ vm_ram_write (λ _. 0) (u16 0xffff) (7 ∷ 8 ∷ [])
sram_write_lem_example = sram_write_lem device empty 0xffff (7 ∷ 8 ∷ [])

abbrev blank : Paged Device
blank = record { local = λ _. 1; sram = empty }

-- A transfer over the border of the two memories.
write_paged_example :
    peek (serial_ram device) (Paged.vm_ram_write (serial_ram device) blank 511 (7 ∷ 8 ∷ [])) 512
    ≡ written_paged (serial_ram device) blank 511 (7 ∷ 8 ∷ []) 512
write_paged_example = write_paged (serial_ram device) blank 511 (7 ∷ 8 ∷ []) 512 (omega arith)
