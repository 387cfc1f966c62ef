-- ===== src/Console/Screen/Cursor.antt =====
-- The cursor, which turns the dots of a character over: `video_cursor` of video/video.c.
use dan.Prelude.{
  ℕ, zero, suc, ◌+◌, ◌-◌, ◌*◌, ◌<◌, ◌≤◌, ◌≡◌, refl, ap, ◌∙◌, ◌==◌, ◌||◌, Bool, true, false,
  if◌then◌else◌, u8, u16, arith, [], ◌∷◌, byte,
}
use dan.Vm.Bus.{Bus}
use dan.Console.Screen.{one_byte}
use dan.Console.Screen.Shown.{dots_address}

module _ {M : Type 0} (sram : Bus M) where
  -- The loop over the lines of a character; `~c` is cut to eight bits.
  unfoldable pub turn_lines : ℕ → ℕ → M → M
  turn_lines zero addr m = m
  turn_lines (suc n) addr m =
      let c = byte (sram.ram_read m addr 1) 0 in
      turn_lines n (u16 (addr + 32)) (sram.ram_write m addr (u8 (255 - c) ∷ []))

  -- `video_cursor` but for the flag `cursor`.
  unfoldable pub video_cursor : ℕ → ℕ → M → M
  unfolding turn_lines
  video_cursor x y m = turn_lines 8 (u16 (0x200 + (x + y * 32 * 8))) m

  -- The addresses of the first lines of dots from an address on.
  hit : ℕ → ℕ → ℕ → Bool
  hit zero a p = false
  hit (suc n) a p = (p == a) || hit n (a + 32) p

  hit-le : (n a p : ℕ) → hit n a p ≡ true → a ≤ p
  unfolding hit
  hit-le zero a p h = cc
  hit-le (suc n) a p h = ground (arith, hit-le n (a + 32) p)

  peek-lt : (m : M) (p : ℕ) → p < 65536 → sram.peek m p < 256
  peek-lt m p h = omega (
    arith,
    sram.ram_read_lem m p 1 0 (omega arith) (omega arith),
    ap (sram.peek m) {x = p + 0} {y = p} (omega arith),
    sram.ram_read-IsByte m p 1 0,
  )

  turned : M → ℕ → M
  turned m a = sram.ram_write m a (u8 (255 - byte (sram.ram_read m a 1) 0) ∷ [])

  peek-turned :
      (m : M) (a p : ℕ)
      → a < 65536
      → sram.peek (turned m a) p ≡ (if p == a then 255 - sram.peek m p else sram.peek m p)
  unfolding turned
  peek-turned m a p h =
      one_byte sram m a (u8 (255 - byte (sram.ram_read m a 1) 0)) p h
      ∙ ground
          (arith, sram.ram_read_lem m a 1 0, ap (sram.peek m) {x = a + 0} {y = p}, peek-lt m a h)

  lines_turned :
      (n a : ℕ) (m : M) (p : ℕ)
      → a + 32 * n < 65536
      → sram.peek (turn_lines n a m) p ≡ (if hit n a p then 255 - sram.peek m p else sram.peek m p)
  unfolding turn_lines hit turned
  lines_turned zero a m p h = refl
  lines_turned (suc n) a m p h =
      ap (λ (b : ℕ). sram.peek (turn_lines n b (turned m a)) p) {y = a + 32} (omega arith)
      ∙ lines_turned n (a + 32) (turned m a) p (omega arith)
      ∙ ground (arith, peek-turned m a p (omega arith), hit-le n (a + 32) p)

  cursor_address : (x y : ℕ) → x ≤ 31 → y ≤ 23 → u16 (0x200 + (x + y * 32 * 8)) ≡ dots_address x y 0
  cursor_address x y hx hy = omega arith

  -- Turning the cursor over a second time restores every byte, if it is on the screen.
  pub video_cursor-video_cursor :
      (x y : ℕ) (m : M) (p : ℕ)
      → x ≤ 31
      → y ≤ 23
      → p < 65536
      → sram.peek (video_cursor x y (video_cursor x y m)) p ≡ sram.peek m p
  unfolding video_cursor
  video_cursor-video_cursor x y m p hx hy hp = rw (cursor_address x y hx hy) (
      lines_turned 8 (dots_address x y 0) (turn_lines 8 (dots_address x y 0) m) p (omega arith)
      ∙ ground (arith, lines_turned 8 (dots_address x y 0) m p (omega arith), peek-lt m p hp))
