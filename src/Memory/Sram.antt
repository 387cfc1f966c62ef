-- ===== src/Memory/Sram.antt =====
-- memory/mem.c: transfers of the serial RAM, and that they are those of a flat memory.
pub mod Flat
use dan.Prelude.{ℕ, zero, suc, ◌+◌, ◌/◌, ◌≡◌, refl, ap, ◌∙◌, u8, u16, arith, List, [], ◌∷◌}
use dan.Vm.FlatRam.{Ram, cell, vm_ram_read, vm_ram_write}
use dan.Memory.Chip.{Chip, Direction, reading, writing, instruction, burst}

module _ {D : Type 0} (chip : Chip D) where
  -- A byte out, whatever comes in.
  unfoldable pub send : D → ℕ → D
  send d b = (chip.transfer d b).1

  -- Selection, the instruction and the address.
  unfoldable pub begin : Direction → D → ℕ → D
  unfolding send
  begin w d a = send (send (send (chip.select d) (instruction w)) (u8 (a / 256))) (u8 a)

  unfoldable pub send_all : D → List ℕ → D
  unfolding send
  send_all d [] = d
  send_all d (b ∷ bs) = send_all (send d b) bs

  unfoldable pub sram_write : D → ℕ → List ℕ → D
  unfolding begin send_all
  sram_write d a bs = chip.deselect (send_all (begin writing d a) bs)

  unfoldable pub send_times : D → ℕ → ℕ → D
  unfolding send
  send_times d c zero = d
  send_times d c (suc n) = send_times (send d c) c n

  unfoldable pub sram_set : D → ℕ → ℕ → ℕ → D
  unfolding begin send_times
  sram_set d a c times = chip.deselect (send_times (begin writing d a) c times)

  -- The bytes that come in while 0xff goes out.
  unfoldable pub receive : D → ℕ → List ℕ × D
  receive d zero = ([], d)
  receive d (suc n) =
      let (b, d') = chip.transfer d 0xff in let (bs, d'') = receive d' n in (b ∷ bs, d'')

  unfoldable pub sram_read : D → ℕ → ℕ → List ℕ × D
  unfolding begin receive
  sram_read d a n = let (bs, d') = receive (begin reading d a) n in (bs, chip.deselect d')

  pub begin_lem :
      (w : Direction) (d : D) (a : ℕ)
      → (chip.mode (begin w d a) ≡ burst w (u16 a)) × (chip.cells (begin w d a) ≡ chip.cells d)
  unfolding begin
  begin_lem w d a =
      let d0 = chip.select d in
      let s0 = chip.select_lem d in
      let d1 = (chip.transfer d0 (instruction w)).1 in
      let s1 = chip.transfer-command d0 w s0.0 in
      let d2 = (chip.transfer d1 (u8 (a / 256))).1 in
      let s2 = chip.transfer-high d1 w (u8 (a / 256)) s1.0 in
      let s3 = chip.transfer-low d2 w (u8 (a / 256)) (u8 a) s2.0 in
      (s3.0 ∙ ap (burst w) (omega arith), s3.1 ∙ s2.1 ∙ s1.1 ∙ s0.1)

  send_all_lem :
      (bs : List ℕ) (d : D) (a : ℕ)
      → chip.mode d ≡ burst writing a
      → chip.cells (send_all d bs) ≡ vm_ram_write (chip.cells d) a bs
  unfolding send_all vm_ram_write
  send_all_lem [] d a h = refl
  send_all_lem (b ∷ bs) d a h =
      let s = chip.transfer-write d a b h in
      send_all_lem bs (send d b) (u16 (a + 1)) s.0
      ∙ ap (λ (m : Ram). vm_ram_write m (u16 (a + 1)) bs) s.1

  -- `sram_write` stores what a flat memory stores: the bytes one after the other from the address
  -- on, going on at 0 behind 0xffff.
  pub sram_write_lem :
      (d : D) (a : ℕ) (bs : List ℕ)
      → chip.cells (sram_write d a bs) ≡ vm_ram_write (chip.cells d) (u16 a) bs
  unfolding sram_write
  sram_write_lem d a bs =
      let s = begin_lem writing d a in
      chip.deselect_lem (send_all (begin writing d a) bs)
      ∙ send_all_lem bs (begin writing d a) (u16 a) s.0
      ∙ ap (λ (m : Ram). vm_ram_write m (u16 a) bs) s.1

  receive_lem :
      (n : ℕ) (d : D) (a : ℕ)
      → chip.mode d ≡ burst reading a
      → ((receive d n).0 ≡ vm_ram_read (chip.cells d) a n)
        × (chip.cells (receive d n).1 ≡ chip.cells d)
  unfolding receive vm_ram_read
  receive_lem zero d a h = (refl, refl)
  receive_lem (suc n) d a h =
      let s = chip.transfer-read d a 0xff h in
      let d' = (chip.transfer d 0xff).1 in
      let rest = receive_lem n d' (u16 (a + 1)) s.1 in
      (
        rw (s.0, rest.0)
            (ap (λ (m : Ram). cell (chip.cells d) a ∷ vm_ram_read m (u16 (a + 1)) n) s.2),
        rest.1 ∙ s.2,
      )

  -- `sram_read` gives what a flat memory gives, and leaves the contents as they are.
  pub sram_read_lem :
      (d : D) (a n : ℕ)
      → ((sram_read d a n).0 ≡ vm_ram_read (chip.cells d) (u16 a) n)
        × (chip.cells (sram_read d a n).1 ≡ chip.cells d)
  unfolding sram_read
  sram_read_lem d a n =
      let s = begin_lem reading d a in
      let r = receive_lem n (begin reading d a) (u16 a) s.0 in
      (
        r.0 ∙ ap (λ (m : Ram). vm_ram_read m (u16 a) n) s.1,
        chip.deselect_lem (receive (begin reading d a) n).1 ∙ r.1 ∙ s.1,
      )
