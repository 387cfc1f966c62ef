-- ===== src/Vm/Bus.antt =====
-- What vm/vm.c asks of the memory: the two functions that it declares as externally defined.
use dan.Prelude.{ℕ, ◌+◌, ◌≡◌, List, ◌<◌, length, byte, ◌≤◌, ◌-◌}
use dan.Prelude.{ltb, if◌then◌else◌, u8}

-- `peek` is the specification's view: the byte at an address. `ram_read` is
-- `vm_ram_read(addr, dst, size)` with the bytes that it stores at `dst`; `ram_write` is
-- `vm_ram_write(addr, src, size)` with the bytes at `src`.
pub record Bus (M : Type 0) : Type 0 where
  pub peek : M → ℕ → ℕ
  pub ram_read : M → ℕ → ℕ → List ℕ
  pub ram_write : M → ℕ → List ℕ → M
  -- Transfers within the address space go byte by byte, and a cell keeps eight bits.
  pub ram_read_lem :
      (m : M) (a n i : ℕ) → a + n ≤ 65536 → i < n → byte (ram_read m a n) i ≡ peek m (a + i)
  pub ram_write_lem :
      (m : M) (a : ℕ) (bs : List ℕ) (p : ℕ)
      → a + length bs ≤ 65536
      → peek (ram_write m a bs) p ≡ (
          if ltb p a
          then peek m p
          else if ltb p (a + length bs)
          then u8 (byte bs (p - a))
          else peek m p)
  -- Every read gives bytes.
  pub ram_read-IsByte : (m : M) (a n i : ℕ) → byte (ram_read m a n) i < 256
