-- ===== src/Console/Screen.antt =====
-- Characters on the screen: `video_put_char` and `video_put_tile` of video/video.c and `scroll_up`
-- of init/main.c. The video memory begins at VIDEO_ADDR in the serial RAM, a line of dots is
-- CHARS_WIDTH bytes, and a row of characters eight lines. The font is a parameter.
pub mod Shown
pub mod Cursor
pub mod Clear
use dan.Prelude.{
  ℕ, zero, suc, ◌+◌, ◌-◌, ◌*◌, ◌<◌, ◌≤◌, ◌≡◌, ◌≢◌, refl, ap, ap₂, ◌∙◌, ltb, if◌then◌else◌, ◌==◌, u8,
  u16, arith, List, [], ◌∷◌, byte, length,
}
use dan.Vm.Bus.{Bus}
use dan.Memory.Sram.Flat.{replicate}

-- The first bytes of a buffer, as `sram_write` takes them.
unfoldable pub block : ℕ → List ℕ → List ℕ
block zero bs = []
block (suc n) [] = 0 ∷ block n []
block (suc n) (b ∷ bs) = b ∷ block n bs

length-block : (n : ℕ) (bs : List ℕ) → length (block n bs) ≡ n
unfolding block
length-block zero bs = refl
length-block (suc n) [] = omega (arith, length-block n [])
length-block (suc n) (b ∷ bs) = omega (arith, length-block n bs)

byte-block : (n : ℕ) (bs : List ℕ) (i : ℕ) → i < n → byte (block n bs) i ≡ byte bs i
unfolding block
byte-block zero bs i h = absurd (omega arith)
byte-block (suc n) [] zero h = refl
byte-block (suc n) [] (suc i) h = byte-block n [] i (omega arith)
byte-block (suc n) (b ∷ bs) zero h = refl
byte-block (suc n) (b ∷ bs) (suc i) h = byte-block n bs i (omega arith)

module _ {M : Type 0} (sram : Bus M) where
  -- The loop over the lines of a character, with the rounds left.
  unfoldable pub put_lines : (ℕ → ℕ) → ℕ → ℕ → ℕ → M → M
  put_lines dots zero line addr m = m
  put_lines dots (suc n) line addr m =
      put_lines dots n (line + 1) (u16 (addr + 32)) (sram.ram_write m addr (dots line ∷ []))

  unfoldable pub video_put_char : (ℕ → ℕ) → ℕ → ℕ → ℕ → M → M
  unfolding put_lines
  video_put_char font x y c m =
      put_lines (λ line. font (line + c * 8)) 8 0 (u16 (0x200 + (x + y * 32 * 8))) m

  unfoldable pub video_put_tile : ℕ → ℕ → List ℕ → M → M
  unfolding put_lines
  video_put_tile x y tile m = put_lines (byte tile) 8 0 (u16 (0x200 + (x + y * 32 * 8))) m

  -- The loop over the four parts of a row.
  unfoldable pub move_parts : ℕ → ℕ → ℕ → ℕ → M → M
  unfolding block
  move_parts zero j src dst m = m
  move_parts (suc n) j src dst m =
      move_parts n (j + 1) src dst
        (sram.ram_write m (u16 (dst + j * 64)) (block 64 (sram.ram_read m (u16 (src + j * 64)) 64)))

  -- The loop over the rows, with `dst` at its end.
  unfoldable pub move_rows : ℕ → ℕ → ℕ → M → M × ℕ
  unfolding move_parts
  move_rows zero src dst m = (m, dst)
  move_rows (suc n) src dst m =
      move_rows n (u16 (src + 32 * 8)) (u16 (dst + 32 * 8)) (move_parts 4 0 src dst m)

  -- The last loop: `sram_set` stores as many copies of one byte.
  unfoldable pub clear_parts : ℕ → ℕ → ℕ → M → M
  unfolding replicate
  clear_parts zero j dst m = m
  clear_parts (suc n) j dst m =
      clear_parts n (j + 1) dst (sram.ram_write m (u16 (dst + j * 64)) (replicate 64 0))

  unfoldable pub scroll_up : M → M
  unfolding move_rows clear_parts
  scroll_up m =
      let (moved, dst) = move_rows 23 (0x200 + 32 * 8) 0x200 m in clear_parts 4 0 dst moved

  pub one_byte :
      (m : M) (a v p : ℕ)
      → a < 65536
      → sram.peek (sram.ram_write m a (v ∷ [])) p ≡ (if p == a then u8 v else sram.peek m p)
  one_byte m a v p h =
      sram.ram_write_lem m a (v ∷ []) p (omega arith) ∙ ground (arith, byte_first v (p - a))
    where
      byte_first : (v d : ℕ) → d ≡ 0 → byte (v ∷ []) d ≡ v
      byte_first v zero e = refl
      byte_first v (suc d) e = absurd (omega arith)

  pub lines_outside :
      (dots : ℕ → ℕ) (n line a : ℕ) (m : M) (p : ℕ)
      → a + 32 * n < 65536
      → ((k : ℕ) → k < n → p ≢ a + 32 * k)
      → sram.peek (put_lines dots n line a m) p ≡ sram.peek m p
  unfolding put_lines
  lines_outside dots zero line a m p h out = refl
  lines_outside dots (suc n) line a m p h out =
      ap (λ (b : ℕ). sram.peek (put_lines dots n (line + 1) b m') p) {y = a + 32} (omega arith)
      ∙ lines_outside dots n (line + 1) (a + 32) m' p (omega arith)
          (λ k hk e. out (k + 1) (omega arith) (omega arith))
      ∙ one_byte m a (dots line) p (omega arith)
      ∙ ground (arith, out 0 (omega arith))
    where
      m' : M
      m' = sram.ram_write m a (dots line ∷ [])

  pub lines_inside :
      (dots : ℕ → ℕ) (n line a : ℕ) (m : M) (k : ℕ)
      → a + 32 * n < 65536
      → k < n
      → sram.peek (put_lines dots n line a m) (a + 32 * k) ≡ u8 (dots (line + k))
  unfolding put_lines
  lines_inside dots zero line a m k h hk = absurd (omega arith)
  lines_inside dots (suc n) line a m zero h hk =
      ap
        (λ (b : ℕ).
          sram.peek (put_lines dots n (line + 1) b (sram.ram_write m a (dots line ∷ [])))
            (a + 32 * 0))
        {y = a + 32} (omega arith)
      ∙ lines_outside dots n (line + 1) (a + 32) (sram.ram_write m a (dots line ∷ [])) (a + 32 * 0)
          (omega arith) (λ k hk e. omega arith)
      ∙ one_byte m a (dots line) (a + 32 * 0) (omega arith)
      ∙ ground (arith, ap dots {x = line} {y = line + 0} (omega arith))
  lines_inside dots (suc n) line a m (suc k) h hk =
      ap₂
        (λ (b p : ℕ).
          sram.peek (put_lines dots n (line + 1) b (sram.ram_write m a (dots line ∷ []))) p)
        {y = a + 32} {v = a + 32 + 32 * k} (omega arith) (omega arith)
      ∙ lines_inside dots n (line + 1) (a + 32) (sram.ram_write m a (dots line ∷ [])) k
          (omega arith) (omega arith)
      ∙ ap (λ (i : ℕ). u8 (dots i)) (omega arith)

  pub part_moved :
      (a b : ℕ) (m : M) (p : ℕ)
      → a + 64 ≤ 65536
      → b + 64 ≤ 65536
      → sram.peek (sram.ram_write m a (block 64 (sram.ram_read m b 64))) p ≡ (
          if ltb p a
          then sram.peek m p
          else if ltb p (a + 64)
          then sram.peek m (b + (p - a))
          else sram.peek m p)
  part_moved a b m p ha hb =
      let bs = sram.ram_read m b 64 in
      let len = length-block 64 bs in
      sram.ram_write_lem m a (block 64 bs) p (omega (arith, len))
      ∙ ground (
        arith,
        len,
        byte-block 64 bs (p - a),
        sram.ram_read_lem m b 64 (p - a),
        sram.ram_read-IsByte m b 64 (p - a),
      )
