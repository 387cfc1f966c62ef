-- ===== src/Console/Screen/Shown.antt =====
-- The screen as a grid of 32 by 24 characters of eight lines: what one character and scrolling show.
use dan.Prelude.{
  ◌&&◌, ◌==◌, ℕ, zero, suc, ◌+◌, ◌-◌, ◌*◌, ◌<◌, ◌≤◌, ◌≡◌, ◌≢◌, ◌⊎◌, inl, inr, refl, ap, ap₂, ◌∙◌,
  ltb, if◌then◌else◌, u8, u16, arith, byte,
}
use native.Mathlib.Decide.{dec_lt, ℕ_discrete}
use dan.Vm.Bus.{Bus}
use dan.Memory.Sram.Flat.{replicate, length-replicate}
use dan.Console.Screen.{
  put_lines, video_put_char, scroll_up, move_parts, move_rows, clear_parts, block, lines_inside,
  lines_outside, part_moved,
}

-- The address of a line of the character in a column and a row.
abbrev pub dots_address : ℕ → ℕ → ℕ → ℕ
dots_address x y line = 0x200 + x + (y * 8 + line) * 32

byte-replicate_zero : (n i : ℕ) → byte (replicate n 0) i ≡ 0
unfolding replicate
byte-replicate_zero zero i = refl
byte-replicate_zero (suc n) zero = refl
byte-replicate_zero (suc n) (suc i) = byte-replicate_zero n i

module _ {M : Type 0} (sram : Bus M) where
  abbrev pub shown : M → ℕ → ℕ → ℕ → ℕ
  shown m x y line = sram.peek m (dots_address x y line)

  -- A character that is put on the screen shows its eight lines of the font in its place, and all
  -- other places show what they did.
  pub video_put_char_lem :
      (font : ℕ → ℕ) (x y c : ℕ) (m : M) (x' y' line : ℕ)
      → x ≤ 31
      → y ≤ 23
      → x' ≤ 31
      → y' ≤ 23
      → line ≤ 7
      → shown (video_put_char sram font x y c m) x' y' line
        ≡ (if (x' == x) && (y' == y) then u8 (font (line + c * 8)) else shown m x' y' line)
  unfolding video_put_char
  video_put_char_lem font x y c m x' y' line hx hy hx' hy' hl = elim (ℕ_discrete x' x) [
    | yes ex ↦ elim (ℕ_discrete y' y) [
      | yes ey ↦ there ex ey ∙ ground arith
      | no ny ↦ others (inr ny) ∙ ground arith
    ]
    | no nx ↦ others (inl nx) ∙ ground arith
  ]
    where
      dots : ℕ → ℕ
      dots line = font (line + c * 8)

      elsewhere :
          (x' ≢ x) ⊎ (y' ≢ y)
          → (k : ℕ) → k < 8
          → dots_address x' y' line ≢ dots_address x y 0 + 32 * k
      elsewhere (inl ne) k h e = ne (omega arith)
      elsewhere (inr ne) k h e = ne (omega arith)

      after : ℕ → ℕ
      after p = sram.peek (put_lines sram dots 8 0 (u16 (0x200 + (x + y * 32 * 8))) m) p

      there : x' ≡ x → y' ≡ y → after (dots_address x' y' line) ≡ u8 (font (line + c * 8))
      there ex ey =
          ap₂ (λ (a p : ℕ). sram.peek (put_lines sram dots 8 0 a m) p) {y = dots_address x y 0}
            {v = dots_address x y 0 + 32 * line} (omega arith) (omega arith)
          ∙ lines_inside sram dots 8 0 (dots_address x y 0) m line (omega arith) (omega arith)
          ∙ ap (λ (i : ℕ). u8 (dots i)) {y = line} (omega arith)

      others : (x' ≢ x) ⊎ (y' ≢ y) → after (dots_address x' y' line) ≡ shown m x' y' line
      others other =
          ap (λ (a : ℕ). sram.peek (put_lines sram dots 8 0 a m) (dots_address x' y' line))
            {y = dots_address x y 0} (omega arith)
          ∙ lines_outside sram dots 8 0 (dots_address x y 0) m (dots_address x' y' line)
              (omega arith) (elsewhere other)

  -- A byte after a number of bytes from an address on came from one row below.
  abbrev moved : ℕ → ℕ → M → ℕ → ℕ
  moved n a m p =
      if ltb p a
      then sram.peek m p
      else if ltb p (a + n)
      then sram.peek m (p + 256)
      else sram.peek m p

  abbrev part : ℕ → ℕ → M → M
  part j a m =
      sram.ram_write m (u16 (a + j * 64)) (block 64 (sram.ram_read m (u16 (a + 256 + j * 64)) 64))

  part_lem :
      (j a : ℕ) (m : M) (p : ℕ)
      → j < 4
      → a + 512 ≤ 65536
      → sram.peek (part j a m) p ≡ moved 64 (a + j * 64) m p
  part_lem j a m p h k =
      ap₂ (λ (to from : ℕ). sram.peek (sram.ram_write m to (block 64 (sram.ram_read m from 64))) p)
        {y = a + j * 64} {v = a + 256 + j * 64} (omega arith) (omega arith)
      ∙ part_moved sram (a + j * 64) (a + 256 + j * 64) m p (omega arith) (omega arith)
      ∙ elim (dec_lt p (a + j * 64)) [
        | yes below ↦ ground arith
        | no above ↦ ground (
          arith,
          ap (sram.peek m) {x = a + 256 + j * 64 + (p - (a + j * 64))} {y = p + 256} (omega arith),
        )
      ]

  parts_moved :
      (n j a : ℕ) (m : M) (p : ℕ)
      → n + j ≤ 4
      → a + 512 ≤ 65536
      → sram.peek (move_parts sram n j (a + 256) a m) p ≡ moved (n * 64) (a + j * 64) m p
  unfolding move_parts
  parts_moved zero j a m p h k = ground arith
  parts_moved (suc n) j a m p h k =
      parts_moved n (j + 1) a (part j a m) p (omega arith) k
      ∙ ground (arith, part_lem j a m p (omega arith) k, part_lem j a m (p + 256) (omega arith) k)

  rows_moved :
      (n a : ℕ) (m : M) (p : ℕ)
      → a + n * 256 + 256 < 65536
      → sram.peek (move_rows sram n (a + 256) a m).0 p ≡ moved (n * 256) a m p
  unfolding move_rows
  rows_moved zero a m p h = ground arith
  rows_moved (suc n) a m p h =
      ap₂
        (λ (src dst : ℕ).
          sram.peek (move_rows sram n src dst (move_parts sram 4 0 (a + 256) a m)).0 p)
        {y = a + 256 + 256} {v = a + 256} (omega arith) (omega arith)
      ∙ rows_moved n (a + 256) (move_parts sram 4 0 (a + 256) a m) p (omega arith)
      ∙ ground (
        arith,
        parts_moved 4 0 a m p (omega arith) (omega arith),
        parts_moved 4 0 a m (p + 256) (omega arith) (omega arith),
      )

  rows_end :
      (n a : ℕ) (m : M)
      → a + n * 256 + 256 < 65536
      → (move_rows sram n (a + 256) a m).1 ≡ a + n * 256
  unfolding move_rows
  rows_end zero a m h = omega arith
  rows_end (suc n) a m h =
      ap₂ (λ (src dst : ℕ). (move_rows sram n src dst (move_parts sram 4 0 (a + 256) a m)).1)
        {y = a + 256 + 256} {v = a + 256} (omega arith) (omega arith)
      ∙ rows_end n (a + 256) (move_parts sram 4 0 (a + 256) a m) (omega arith)
      ∙ omega arith

  part_cleared :
      (a : ℕ) (m : M) (p : ℕ)
      → a + 64 ≤ 65536
      → sram.peek (sram.ram_write m a (replicate 64 0)) p
        ≡ (if ltb p a then sram.peek m p else if ltb p (a + 64) then 0 else sram.peek m p)
  part_cleared a m p h =
      sram.ram_write_lem m a (replicate 64 0) p (omega (arith, length-replicate 64 0))
      ∙ ground (arith, length-replicate 64 0, byte-replicate_zero 64 (p - a))

  parts_cleared :
      (n j a : ℕ) (m : M) (p : ℕ)
      → n + j ≤ 4
      → a + 256 ≤ 65536
      → sram.peek (clear_parts sram n j a m) p ≡ (
          if ltb p (a + j * 64)
          then sram.peek m p
          else if ltb p (a + j * 64 + n * 64)
          then 0
          else sram.peek m p)
  unfolding clear_parts
  parts_cleared zero j a m p h k = ground arith
  parts_cleared (suc n) j a m p h k =
      ap
        (λ (to : ℕ).
          sram.peek (clear_parts sram n (j + 1) a (sram.ram_write m to (replicate 64 0))) p)
        {y = a + j * 64} (omega arith)
      ∙ parts_cleared n (j + 1) a (sram.ram_write m (a + j * 64) (replicate 64 0)) p (omega arith) k
      ∙ ground (arith, part_cleared (a + j * 64) m p (omega arith))

  -- Scrolling moves every row of the screen up by one, clears the last one, and leaves the memory
  -- outside the screen as it is.
  pub scroll_up_lem :
      (m : M) (p : ℕ)
      → sram.peek (scroll_up sram m) p ≡ (
          if ltb p 0x200
          then sram.peek m p
          else if ltb p (0x200 + 23 * 256)
          then sram.peek m (p + 256)
          else if ltb p (0x200 + 24 * 256)
          then 0
          else sram.peek m p)
  unfolding scroll_up
  scroll_up_lem m p =
      ap
        (λ (dst : ℕ).
          sram.peek (clear_parts sram 4 0 dst (move_rows sram 23 (0x200 + 256) 0x200 m).0) p)
        {y = 0x200 + 23 * 256} (rows_end 23 0x200 m (omega arith))
      ∙ parts_cleared 4 0 (0x200 + 23 * 256) (move_rows sram 23 (0x200 + 256) 0x200 m).0 p
          (omega arith) (omega arith)
      ∙ ground (arith, rows_moved 23 0x200 m p (omega arith))
