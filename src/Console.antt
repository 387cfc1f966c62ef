-- ===== src/Console.antt =====
-- The console of init/main.c on the video memory of video/video.c.
pub mod Screen
pub mod Outside
mod Examples
use dan.Prelude.{
  not, Bool, ℕ, ◌+◌, ◌-◌, ◌*◌, ◌/◌, ◌≤◌, ◌==◌, ltb, if◌then◌else◌, u8, arith, List, [], ◌∷◌,
}
use dan.Vm.Bus.{Bus}
use dan.Console.Screen.Cursor.{video_cursor}
use dan.Console.Screen.{video_put_char, scroll_up}

-- The cursor, two variables of type `uint8_t`; the flag of video/video.c that says that it is
-- shown; and the serial RAM.
pub record Console (M : Type 0) : Type 0 where
  pub x : ℕ
  pub y : ℕ
  pub cursor : Bool
  pub sram : M

-- The cursor is on the screen.
pub record IsValid {M : Type 0} (con : Console M) : Type 0 where
  pub x_le : con.x ≤ 31
  pub y_le : con.y ≤ 23

module _ {M : Type 0} (sram : Bus M) where
  -- `video_cursor` at the cursor, with its flag.
  unfoldable pub turn_cursor : Console M → Console M
  turn_cursor con = record con {
    cursor = not con.cursor;
    sram = video_cursor sram con.x con.y con.sram;
  }

  unfoldable pub video_cursor_off : Console M → Console M
  unfolding turn_cursor
  video_cursor_off con = if con.cursor then turn_cursor con else con

module _ {M : Type 0} (sram : Bus M) (font : ℕ → ℕ) where
  -- `y++; if (y > 23) { scroll_up(); y--; }`
  unfoldable pub line_down : Console M → Console M
  line_down con =
      let y = u8 (con.y + 1) in
      if ltb 23 y
      then record con { y = y - 1; sram = scroll_up sram con.sram }
      else record con { y = y }

  -- The switch of `put_char`.
  unfoldable pub place : ℕ → Console M → Console M
  unfolding line_down
  place c con =
      if c == 0x0a
      then line_down (record con { x = 0 })
      else if c == 0x09
      then record con { x = u8 ((con.x / 8 + 1) * 8) }
      else record con { x = u8 (con.x + 1); sram = video_put_char sram font con.x con.y c con.sram }

  -- `if (x > 31) { x = 0; y++; ... }`
  unfoldable pub wrap_line : Console M → Console M
  unfolding line_down
  wrap_line con = if ltb 31 con.x then line_down (record con { x = 0 }) else con

  unfoldable pub put_char : ℕ → Console M → Console M
  unfolding place wrap_line
  put_char c con = wrap_line (place c con)

  -- The loop of `put_string` over the text that `vsnprintf` made.
  unfoldable pub put_chars : List ℕ → Console M → Console M
  unfolding put_char
  put_chars [] con = con
  put_chars (c ∷ cs) con = put_chars cs (put_char c con)

  pub put_char-IsValid : (c : ℕ) (con : Console M) → IsValid con → IsValid (put_char c con)
  unfolding put_char place wrap_line line_down
  put_char-IsValid c con v = ground arith

  -- `put_string` leaves the cursor on the screen, whatever the text, if it was there.
  pub put_chars-IsValid : (cs : List ℕ) (con : Console M) → IsValid con → IsValid (put_chars cs con)
  unfolding put_chars
  put_chars-IsValid [] con v = v
  put_chars-IsValid (c ∷ cs) con v =
      put_chars-IsValid cs (put_char c con) (put_char-IsValid c con v)
