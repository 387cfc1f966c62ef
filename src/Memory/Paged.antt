-- ===== src/Memory/Paged.antt =====
-- `vm_ram_read` and `vm_ram_write` of init/syscall.c: the first 512 bytes are in the array `local`,
-- the others in the serial RAM.
pub mod Refine
use dan.Prelude.{
  ℕ, zero, suc, ◌+◌, ◌-◌, ◌==◌, ltb, if◌then◌else◌, u8, u16, List, [], ◌∷◌, ◌++◌, length,
}
use dan.Vm.Bus.{Bus}
use dan.Vm.FlatRam.{Ram}

pub record Paged (M : Type 0) : Type 0 where
  pub local : Ram
  pub sram : M

-- `memcpy(dst, local + addr, n)`
unfoldable pub copy_out : Ram → ℕ → ℕ → List ℕ
copy_out local a zero = []
copy_out local a (suc n) = u8 (local a) ∷ copy_out local (a + 1) n

-- `memcpy(local + addr, src, n)` of the first `n` bytes.
unfoldable pub copy_in : Ram → ℕ → ℕ → List ℕ → Ram
copy_in local a zero bs = local
copy_in local a (suc n) [] = local
copy_in local a (suc n) (b ∷ bs) = copy_in (λ p. if p == a then b else local p) (a + 1) n bs

-- `src + n`
unfoldable pub skip : ℕ → List ℕ → List ℕ
skip zero bs = bs
skip (suc n) [] = []
skip (suc n) (b ∷ bs) = skip n bs

-- The variable `part`: how many bytes of the transfer are local.
unfoldable pub part : ℕ → ℕ → ℕ
part addr size = if ltb addr 512 then (if ltb 512 (size + addr) then 512 - addr else size) else 0

module _ {M : Type 0} (sram : Bus M) where
  unfoldable pub vm_ram_read : Paged M → ℕ → ℕ → List ℕ
  unfolding copy_out part
  vm_ram_read m addr size =
      let n = part addr size in
      if size == 0
      then []
      else copy_out m.local addr n ++ sram.ram_read m.sram (u16 (addr + n)) (size - n)

  unfoldable pub vm_ram_write : Paged M → ℕ → List ℕ → Paged M
  unfolding copy_in skip part
  vm_ram_write m addr src =
      let size = length src in
      let n = part addr size in
      if size == 0 then m else record m {
        local = copy_in m.local addr n src;
        sram = sram.ram_write m.sram (u16 (addr + n)) (skip n src);
      }
