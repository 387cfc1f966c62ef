-- ===== src/Console/Screen/Clear.antt =====
-- The clearing of the screen, `video_cls` of video/video.c.
use dan.Prelude.{
  ◌&&◌, ◌/◌, ◌%◌, ℕ, zero, suc, ◌+◌, ◌-◌, ◌*◌, ◌<◌, ◌≤◌, ◌≡◌, ap, ◌∙◌, ltb, leb, if◌then◌else◌, u8,
  u16, arith,
}
use native.Mathlib.Decide.{dec_lt}
use dan.Vm.Bus.{Bus}
use dan.Memory.Sram.Flat.{replicate, length-replicate, byte-replicate}

module _ {M : Type 0} (sram : Bus M) where
  -- The loops of `video_cls` over the lines of a row and over the rows; `sram_set` stores as many
  -- copies of one byte.
  unfoldable pub clear_lines : (ℕ → ℕ) → ℕ → ℕ → ℕ → M → M
  unfolding replicate
  clear_lines dots zero line y m = m
  clear_lines dots (suc n) line y m =
      let addr = u16 (0x200 + y * 32 * 8 + line * 32) in
      clear_lines dots n (line + 1) y (sram.ram_write m addr (replicate 32 (dots line)))

  unfoldable pub clear_rows : (ℕ → ℕ) → ℕ → ℕ → M → M
  unfolding clear_lines
  clear_rows dots zero y m = m
  clear_rows dots (suc n) y m = clear_rows dots n (y + 1) (clear_lines dots 8 0 y m)

  unfoldable pub video_cls : (ℕ → ℕ) → ℕ → M → M
  unfolding clear_rows
  video_cls font c m = clear_rows (λ line. font (line + c * 8)) 24 0 m

  module _ (dots : ℕ → ℕ) where
    -- The bytes between two addresses show the font, the others what they did.
    abbrev filled : ℕ → ℕ → M → ℕ → ℕ
    filled a b m p = if leb a p && ltb p b then u8 (dots ((p - 0x200) / 32 % 8)) else sram.peek m p

    line_filled :
        (line y : ℕ) (m : M) (p : ℕ)
        → line < 8
        → y < 24
        → let a = 0x200 + y * 256 + line * 32 in
          sram.peek (sram.ram_write m a (replicate 32 (dots line))) p ≡ filled a (a + 32) m p
    line_filled line y m p h k =
        let a = 0x200 + y * 256 + line * 32 in
        sram.ram_write_lem m a (replicate 32 (dots line)) p
          (omega (arith, length-replicate 32 (dots line)))
        ∙ elim (dec_lt p a) [
          | yes below ↦ ground arith
          | no above ↦ elim (dec_lt p (a + 32)) [
            | yes inside ↦ ground (
              arith,
              length-replicate 32 (dots line),
              byte-replicate 32 (dots line) (p - a),
              ap dots {x = line} {y = (p - 0x200) / 32 % 8} (omega arith),
            )
            | no past ↦ ground (arith, length-replicate 32 (dots line))
          ]
        ]

    lines_filled :
        (n line y : ℕ) (m : M) (p : ℕ)
        → n + line ≤ 8
        → y < 24
        → sram.peek (clear_lines dots n line y m) p
          ≡ filled (0x200 + y * 256 + line * 32) (0x200 + y * 256 + (line + n) * 32) m p
    unfolding clear_lines
    lines_filled zero line y m p h k = ground arith
    lines_filled (suc n) line y m p h k =
        ap
          (λ (b : ℕ).
            sram.peek
              (clear_lines dots n (line + 1) y (sram.ram_write m b (replicate 32 (dots line)))) p)
          {y = 0x200 + y * 256 + line * 32} (omega arith)
        ∙ lines_filled n (line + 1) y
            (sram.ram_write m (0x200 + y * 256 + line * 32) (replicate 32 (dots line))) p
            (omega arith) k
        ∙ ground (arith, line_filled line y m p (omega arith) k)

    rows_filled :
        (n y : ℕ) (m : M) (p : ℕ)
        → n + y ≤ 24
        → sram.peek (clear_rows dots n y m) p ≡ filled (0x200 + y * 256) (0x200 + (y + n) * 256) m p
    unfolding clear_rows
    rows_filled zero y m p h = ground arith
    rows_filled (suc n) y m p h =
        rows_filled n (y + 1) (clear_lines dots 8 0 y m) p (omega arith)
        ∙ ground (arith, lines_filled 8 0 y m p (omega arith) (omega arith))

  -- Clearing the screen with a character shows it in every place, and leaves the memory outside the
  -- screen as it is.
  pub video_cls_lem :
      (font : ℕ → ℕ) (c : ℕ) (m : M) (p : ℕ)
      → sram.peek (video_cls font c m) p ≡ (
          if leb 0x200 p && ltb p 0x1a00
          then u8 (font ((p - 0x200) / 32 % 8 + c * 8))
          else sram.peek m p)
  unfolding video_cls
  video_cls_lem font c m p = rows_filled (λ line. font (line + c * 8)) 24 0 m p (omega arith)
