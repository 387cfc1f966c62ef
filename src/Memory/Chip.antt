-- ===== src/Memory/Chip.antt =====
-- What memory/mem.c asks of the serial RAM on the SPI bus, which is no code of the repository: the
-- transfers of its data sheet in sequential mode, one byte in and one byte out at a time.
use dan.Prelude.{ℕ, ◌+◌, ◌*◌, ◌≡◌, ◌==◌, if◌then◌else◌, u16}
use dan.Vm.FlatRam.{Ram, cell}

pub data Direction : Type 0 where
  reading writing : Direction

-- The instruction bytes READ and WRITE.
abbrev pub instruction : Direction → ℕ
instruction reading = 0x03
instruction writing = 0x02

-- What the next byte on the bus means for the chip. `burst` holds the address of the next cell.
pub data Mode : Type 0 where
  idle command : Mode
  address_high : Direction → Mode
  address_low : Direction → ℕ → Mode
  burst : Direction → ℕ → Mode

-- `mode` and `cells` are the specification's view. `select` and `deselect` stand for the two
-- values of bit 6 of PORTD; `transfer` stands for `SPDR = b`, the wait, and the value in SPDR.
pub record Chip (D : Type 0) : Type 0 where
  pub mode : D → Mode
  pub cells : D → Ram
  pub select : D → D
  pub deselect : D → D
  pub transfer : D → ℕ → ℕ × D
  pub select_lem : (d : D) → (mode (select d) ≡ command) × (cells (select d) ≡ cells d)
  pub deselect_lem : (d : D) → cells (deselect d) ≡ cells d
  pub transfer-command :
      (d : D) (w : Direction)
      → mode d ≡ command
      → let d' = (transfer d (instruction w)).1 in (mode d' ≡ address_high w) × (cells d' ≡ cells d)
  pub transfer-high :
      (d : D) (w : Direction) (b : ℕ)
      → mode d ≡ address_high w
      → let d' = (transfer d b).1 in (mode d' ≡ address_low w b) × (cells d' ≡ cells d)
  pub transfer-low :
      (d : D) (w : Direction) (h b : ℕ)
      → mode d ≡ address_low w h
      → let d' = (transfer d b).1 in (mode d' ≡ burst w (h * 256 + b)) × (cells d' ≡ cells d)
  pub transfer-write :
      (d : D) (a b : ℕ)
      → mode d ≡ burst writing a
      → let d' = (transfer d b).1 in
        (mode d' ≡ burst writing (u16 (a + 1)))
        × (cells d' ≡ (λ p. if p == a then b else cells d p))
  pub transfer-read :
      (d : D) (a b : ℕ)
      → mode d ≡ burst reading a
      → let (r, d') = transfer d b in
        (r ≡ cell (cells d) a) × (mode d' ≡ burst reading (u16 (a + 1))) × (cells d' ≡ cells d)
