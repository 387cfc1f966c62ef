-- ===== src/Memory/Paged/Refine.antt =====
-- The paged memory keeps the promises that vm/vm.c relies on.
use dan.Prelude.{
  ℕ, zero, suc, ◌+◌, ◌-◌, ◌≤◌, ◌<◌, ◌≡◌, ◌==◌, refl, ap, ◌∙◌, Bool-cases, inl, inr, false, ltb,
  if◌then◌else◌, both_branches, u8, u16, arith, List, [], ◌∷◌, ◌++◌, length, byte,
}
use native.Mathlib.Decide.{dec_lt}
use dan.Vm.Bus.{Bus}
use dan.Vm.FlatRam.{Ram}
use dan.Memory.Paged.{Paged, copy_out, copy_in, skip, part, vm_ram_read, vm_ram_write}

byte-append_lt : (xs ys : List ℕ) (i : ℕ) → i < length xs → byte (xs ++ ys) i ≡ byte xs i
byte-append_lt [] ys i h = absurd (omega arith)
byte-append_lt (x ∷ xs) ys zero h = refl
byte-append_lt (x ∷ xs) ys (suc i) h = byte-append_lt xs ys i (omega arith)

byte-append_le :
    (xs ys : List ℕ) (i : ℕ) → length xs ≤ i → byte (xs ++ ys) i ≡ byte ys (i - length xs)
byte-append_le [] ys i h = ap (byte ys) (omega arith)
byte-append_le (x ∷ xs) ys zero h = absurd (omega arith)
byte-append_le (x ∷ xs) ys (suc i) h =
    byte-append_le xs ys i (omega arith) ∙ ap (byte ys) (omega arith)

length-copy_out : (m : Ram) (a n : ℕ) → length (copy_out m a n) ≡ n
unfolding copy_out
length-copy_out m a zero = refl
length-copy_out m a (suc n) = ap suc (length-copy_out m (a + 1) n)

byte-copy_out : (m : Ram) (a n i : ℕ) → i < n → byte (copy_out m a n) i ≡ u8 (m (a + i))
unfolding copy_out
byte-copy_out m a zero i h = absurd (omega arith)
byte-copy_out m a (suc n) zero h = ap (λ (p : ℕ). u8 (m p)) (omega arith)
byte-copy_out m a (suc n) (suc i) h =
    byte-copy_out m (a + 1) n i (omega arith) ∙ ap (λ (p : ℕ). u8 (m p)) (omega arith)

byte-skip : (n : ℕ) (bs : List ℕ) (i : ℕ) → byte (skip n bs) i ≡ byte bs (n + i)
unfolding skip
byte-skip zero bs i = ap (byte bs) (omega arith)
byte-skip (suc n) [] i = refl
byte-skip (suc n) (b ∷ bs) i = byte-skip n bs i ∙ ap (byte (b ∷ bs)) {x = suc (n + i)} (omega arith)

length-skip : (n : ℕ) (bs : List ℕ) → length (skip n bs) ≡ length bs - n
unfolding skip
length-skip zero bs = omega arith
length-skip (suc n) [] = omega arith
length-skip (suc n) (b ∷ bs) = length-skip n bs ∙ omega arith

byte_next : (b : ℕ) (bs : List ℕ) (d : ℕ) → 0 < d → byte (b ∷ bs) d ≡ byte bs (d - 1)
byte_next b bs zero h = absurd (omega arith)
byte_next b bs (suc d) h = ap (byte bs) (omega arith)

-- The local bytes after a copy.
copy_in_lem :
    (m : Ram) (a n : ℕ) (bs : List ℕ) (p : ℕ)
    → n ≤ length bs
    → copy_in m a n bs p ≡ (if ltb p a then m p else if ltb p (a + n) then byte bs (p - a) else m p)
unfolding copy_in
copy_in_lem m a zero bs p h = ground arith
copy_in_lem m a (suc n) [] p h = absurd (omega arith)
copy_in_lem m a (suc n) (b ∷ bs) p h =
    copy_in_lem (λ q. if q == a then b else m q) (a + 1) n bs p (omega arith)
    ∙ ground (
      arith,
      byte_next b bs (p - a),
      ap {A = ℕ} (byte bs) {x = p - a - 1} {y = p - (a + 1)} (omega arith),
      ap {A = ℕ} (byte (b ∷ bs)) {x = p - a} {y = 0},
    )

append-IsByte :
    (xs ys : List ℕ)
    → ((i : ℕ) → byte xs i < 256)
    → ((i : ℕ) → byte ys i < 256)
    → (i : ℕ) → byte (xs ++ ys) i < 256
append-IsByte [] ys hx hy i = hy i
append-IsByte (x ∷ xs) ys hx hy zero = hx 0
append-IsByte (x ∷ xs) ys hx hy (suc i) = append-IsByte xs ys (λ j. hx (suc j)) hy i

copy_out-IsByte : (m : Ram) (a n i : ℕ) → byte (copy_out m a n) i < 256
unfolding copy_out
copy_out-IsByte m a zero i = omega arith
copy_out-IsByte m a (suc n) zero = omega arith
copy_out-IsByte m a (suc n) (suc i) = copy_out-IsByte m (a + 1) n i

not_zero : (n : ℕ) → 0 < n → (n == 0) ≡ false
not_zero n h = ground arith

module _ {M : Type 0} (sram : Bus M) where
  abbrev pub peek : Paged M → ℕ → ℕ
  peek m p = if ltb p 512 then u8 (m.local p) else sram.peek m.sram p

  far_read :
      (m : M) (a n i k : ℕ)
      → a + n ≤ 65536
      → i < n
      → k ≤ i
      → byte (sram.ram_read m (u16 (a + k)) (n - k)) (i - k) ≡ sram.peek m (a + i)
  far_read m a n i k h hi hk =
      sram.ram_read_lem m (u16 (a + k)) (n - k) (i - k) (omega arith) (omega arith)
      ∙ ap (sram.peek m) (omega arith)

  -- A read within the 64 KB gives the machine's byte at each address, from both memories.
  pub read_paged :
      (m : Paged M) (a n i : ℕ)
      → a + n ≤ 65536
      → i < n
      → byte (vm_ram_read sram m a n) i ≡ peek m (a + i)
  unfolding vm_ram_read
  read_paged m a n i h k = rw (not_zero n (omega arith)) (elim (dec_lt i (part a n)) [
    | yes near ↦
        byte-append_lt (copy_out m.local a (part a n)) far i (omega (arith, local_length))
        ∙ byte-copy_out m.local a (part a n) i near
        ∙ ground arith
    | no beyond ↦
        byte-append_le (copy_out m.local a (part a n)) far i (omega (arith, local_length))
        ∙ ap (λ (j : ℕ). byte far (i - j)) local_length
        ∙ far_read m.sram a n i (part a n) h k (omega arith)
        ∙ ground arith
  ])
    where
      far : List ℕ
      far = sram.ram_read m.sram (u16 (a + part a n)) (n - part a n)

      local_length : length (copy_out m.local a (part a n)) ≡ part a n
      local_length = length-copy_out m.local a (part a n)

  pub read_paged-IsByte : (m : Paged M) (a n i : ℕ) → byte (vm_ram_read sram m a n) i < 256
  unfolding vm_ram_read
  read_paged-IsByte m a n i =
      both_branches (λ bs. byte bs i < 256) (n == 0) (omega arith)
        (append-IsByte (copy_out m.local a (part a n)) _ (copy_out-IsByte m.local a (part a n))
          (sram.ram_read-IsByte _ _ _) i)

  -- A cell of the serial RAM after the second part of a transfer.
  far_write :
      (m : M) (a k : ℕ) (bs : List ℕ) (p : ℕ)
      → a + length bs ≤ 65536
      → k ≤ length bs
      → a + k < 65536
      → sram.peek (sram.ram_write m (u16 (a + k)) (skip k bs)) p ≡ (
          if ltb p (a + k)
          then sram.peek m p
          else if ltb p (a + length bs)
          then u8 (byte bs (p - a))
          else sram.peek m p)
  far_write m a k bs p h hk hm =
      sram.ram_write_lem m (u16 (a + k)) (skip k bs) p (omega (arith, length-skip k bs))
      ∙ ground (
        arith,
        length-skip k bs,
        byte-skip k bs (p - (a + k)),
        ap {A = ℕ} (byte bs) {x = k + (p - (a + k))} {y = p - a},
        ap {A = ℕ} (byte (skip k bs)) {x = p - u16 (a + k)} {y = p - (a + k)} (omega arith),
      )

  abbrev pub written_paged : Paged M → ℕ → List ℕ → ℕ → ℕ
  written_paged m a bs p =
      if ltb p a then peek m p else if ltb p (a + length bs) then u8 (byte bs (p - a)) else peek m p

  -- A write within the 64 KB stores its bytes at its addresses, over the border of the two memories
  -- too, and keeps all others.
  pub write_paged :
      (m : Paged M) (a : ℕ) (bs : List ℕ) (p : ℕ)
      → a + length bs ≤ 65536
      → peek (vm_ram_write sram m a bs) p ≡ written_paged m a bs p
  unfolding vm_ram_write
  write_paged m a [] p h = ground arith
  write_paged m a (b ∷ bs) p h =
      rw (not_zero (suc (length bs)) (omega arith)) (elim (Bool-cases (ltb p 512)) [
        | inl near ↦ rw near (
            ap u8 (copy_in_lem m.local a (part a (suc (length bs))) (b ∷ bs) p (ground arith))
            ∙ ground arith)
        | inr beyond ↦ rw beyond (
            far_write m.sram a (part a (suc (length bs))) (b ∷ bs) p h (ground arith) (ground arith)
            ∙ ground arith)
      ])

  -- The machine's memory, local bytes and serial RAM together.
  abbrev pub paged_ram : Bus (Paged M)
  paged_ram = record {
    peek = peek;
    ram_read = vm_ram_read sram;
    ram_write = vm_ram_write sram;
    ram_read_lem = read_paged;
    ram_write_lem = write_paged;
    ram_read-IsByte = read_paged-IsByte;
  }
