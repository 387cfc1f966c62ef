-- ===== src/Memory/Sram/Flat.antt =====
-- The serial RAM as a memory of the machine's kind, and runs of filling it.
use dan.Prelude.{
  ℕ, zero, suc, ◌+◌, ◌≤◌, ◌<◌, ◌≡◌, refl, ap, ◌∙◌, u16, arith, List, [], ◌∷◌, length, byte,
}
use dan.Vm.Bus.{Bus}
use dan.Vm.FlatRam.{
  Ram, cell, written, vm_ram_write, vm_ram_read_lem, vm_ram_write_lem, vm_ram_read-IsByte,
}
use dan.Memory.Chip.{Chip, writing, burst}
use dan.Memory.Sram.{
  send, begin, send_times, sram_read, sram_write, sram_set, begin_lem, sram_read_lem,
  sram_write_lem,
}

unfoldable pub replicate : ℕ → ℕ → List ℕ
replicate zero c = []
replicate (suc n) c = c ∷ replicate n c

-- A transfer that fits begins at the address that is given.
fits : (a n : ℕ) → a + suc n ≤ 65536 → u16 a ≡ a
fits a n h = omega arith

pub length-replicate : (n c : ℕ) → length (replicate n c) ≡ n
unfolding replicate
length-replicate zero c = refl
length-replicate (suc n) c = omega (arith, length-replicate n c)

pub byte-replicate : (n c i : ℕ) → i < n → byte (replicate n c) i ≡ c
unfolding replicate
byte-replicate zero c i h = absurd (omega arith)
byte-replicate (suc n) c zero h = refl
byte-replicate (suc n) c (suc i) h = byte-replicate n c i (omega arith)

module _ {D : Type 0} (chip : Chip D) where
  abbrev pub contents : D → ℕ → ℕ
  contents d p = cell (chip.cells d) p

  pub read_fits :
      (d : D) (a n i : ℕ)
      → a + n ≤ 65536
      → i < n
      → byte (sram_read chip d a n).0 i ≡ contents d (a + i)
  read_fits d a zero i h k = absurd (omega arith)
  read_fits d a (suc n) i h k =
      ap (λ (bs : List ℕ). byte bs i) (sram_read_lem chip d a (suc n)).0
      ∙ rw (fits a n h) (vm_ram_read_lem (chip.cells d) a (suc n) i h k)

  pub write_fits :
      (d : D) (a : ℕ) (bs : List ℕ) (p : ℕ)
      → a + length bs ≤ 65536
      → contents (sram_write chip d a bs) p ≡ written (chip.cells d) a bs p
  unfolding vm_ram_write
  write_fits d a [] p h =
      ap (λ (m : Ram). cell m p) (sram_write_lem chip d a [])
      ∙ vm_ram_write_lem (chip.cells d) a [] p h
  write_fits d a (b ∷ bs) p h =
      ap (λ (m : Ram). cell m p) (sram_write_lem chip d a (b ∷ bs))
      ∙ rw (fits a (length bs) h) (vm_ram_write_lem (chip.cells d) a (b ∷ bs) p h)

  pub read_bytes : (d : D) (a n i : ℕ) → byte (sram_read chip d a n).0 i < 256
  read_bytes d a n i =
      rw ((sram_read_lem chip d a n).0) (vm_ram_read-IsByte (chip.cells d) (u16 a) n i)

  -- A read leaves the contents, so its effect on the chip is dropped.
  abbrev pub serial_ram : Bus D
  serial_ram = record {
    peek = contents;
    ram_read = λ d a n. (sram_read chip d a n).0;
    ram_write = sram_write chip;
    ram_read_lem = read_fits;
    ram_write_lem = write_fits;
    ram_read-IsByte = read_bytes;
  }

  send_times_lem :
      (n : ℕ) (d : D) (a c : ℕ)
      → chip.mode d ≡ burst writing a
      → chip.cells (send_times chip d c n) ≡ vm_ram_write (chip.cells d) a (replicate n c)
  unfolding send_times vm_ram_write replicate
  send_times_lem zero d a c h = refl
  send_times_lem (suc n) d a c h =
      let s = chip.transfer-write d a c h in
      send_times_lem n (send chip d c) (u16 (a + 1)) c s.0
      ∙ ap (λ (m : Ram). vm_ram_write m (u16 (a + 1)) (replicate n c)) s.1

  -- `sram_set` stores as many copies of one byte.
  pub sram_set_lem :
      (d : D) (a c times : ℕ)
      → chip.cells (sram_set chip d a c times)
        ≡ vm_ram_write (chip.cells d) (u16 a) (replicate times c)
  unfolding sram_set
  sram_set_lem d a c times =
      let s = begin_lem chip writing d a in
      chip.deselect_lem (send_times chip (begin chip writing d a) c times)
      ∙ send_times_lem times (begin chip writing d a) (u16 a) c s.0
      ∙ ap (λ (m : Ram). vm_ram_write m (u16 a) (replicate times c)) s.1
