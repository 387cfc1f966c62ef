-- ===== src/Editor.antt =====
-- The line editor, `buffered_input` of init/main.c.
pub mod Line
pub mod Cells
pub mod Refine
pub mod Input
pub mod Bounds
mod Examples
use dan.Prelude.{
  ℕ, zero, suc, ◌+◌, ◌-◌, ◌==◌, ltb, if◌then◌else◌, u8, u16, Option, none, some, List, [], ◌∷◌,
}
use dan.Vm.Bus.{Bus}
use dan.Console.{Console, turn_cursor, video_cursor_off, line_down}
use dan.Console.Screen.{video_put_char, scroll_up}

-- The variables of `buffered_input`: the buffer is the caller's array, `pos` the place of the
-- cursor in the line and `end` the length of the line.
pub record Editor (M : Type 0) : Type 0 where
  pub console : Console M
  pub buffer : ℕ → ℕ
  pub pos : ℕ  -- uint8_t
  pub end : ℕ  -- uint8_t
  pub cnt : ℕ  -- uint16_t

-- `buffer[k] = v`
abbrev pub store : (ℕ → ℕ) → ℕ → ℕ → ℕ → ℕ
store buffer k v p = if p == k then v else buffer p

-- The place to the right, and the place to the left.
unfoldable pub right_of : ℕ × ℕ → ℕ × ℕ
right_of (i, j) = if ltb i 31 then (i + 1, j) else (0, u8 (j + 1))

unfoldable pub left_of : ℕ × ℕ → ℕ × ℕ
left_of (i, j) = if ltb 0 i then (i - 1, j) else (31, u8 (j + 255))

module _ {M : Type 0} where
  abbrev pub place_cursor : ℕ × ℕ → Console M → Console M
  place_cursor at con = record con { x = at.0; y = at.1 }

  unfoldable pub move_left : Editor M → Editor M
  unfolding left_of
  move_left e =
      let con = e.console in
      if ltb 0 e.pos
      then record e { console = place_cursor (left_of (con.x, con.y)) con; pos = e.pos - 1 }
      else e

  unfoldable pub move_right : Editor M → Editor M
  unfolding right_of
  move_right e =
      let con = e.console in
      if ltb e.pos e.end
      then record e { console = place_cursor (right_of (con.x, con.y)) con; pos = u8 (e.pos + 1) }
      else e

module _ {M : Type 0} (sram : Bus M) (font : ℕ → ℕ) where
  -- The loop of the backspace key from `k` on, with the rounds left.
  unfoldable pub close_gap : ℕ → ℕ → ℕ → ℕ × ℕ → (ℕ → ℕ) → M → (ℕ → ℕ) × M
  unfolding right_of
  close_gap zero k end at buffer m = (buffer, m)
  close_gap (suc n) k end at buffer m =
      let inner = ltb k (end - 1) in
      close_gap n (k + 1) end (right_of at)
        (if inner then store buffer k (buffer (k + 1)) else buffer)
        (video_put_char sram font at.0 at.1 (if inner then buffer (k + 1) else 0x20) m)

  -- The loop of a key in the middle of the line from `k` down, with the rounds left.
  unfoldable pub open_gap : ℕ → ℕ → ℕ × ℕ → (ℕ → ℕ) → M → (ℕ → ℕ) × M
  unfolding left_of
  open_gap zero k at buffer m = (buffer, m)
  open_gap (suc n) k at buffer m =
      open_gap n (k - 1) (left_of at) (store buffer k (buffer (k - 1)))
        (video_put_char sram font at.0 at.1 (buffer (k - 1)) m)

  unfoldable pub blink : Editor M → Editor M
  blink e =
      let cnt = u16 (e.cnt + 1) in
      if cnt == 0x4000
      then record e { console = turn_cursor sram e.console; cnt = 0 }
      else record e { cnt = cnt }

  unfoldable pub backspace : Editor M → Editor M
  unfolding left_of close_gap
  backspace e =
      let con = e.console in
      let pos = e.pos - 1 in
      let at = left_of (con.x, con.y) in
      let (buffer, m) = close_gap (e.end - pos) pos e.end at e.buffer con.sram in
      if ltb 0 e.pos
      then record e {
        console = record con { x = at.0; y = at.1; sram = m };
        buffer = buffer;
        pos = pos;
        end = e.end - 1;
      }
      else e

  -- A key at the end of the line.
  unfoldable pub append : ℕ → Editor M → Editor M
  append d e =
      let con = record e.console {
        sram = video_put_char sram font e.console.x e.console.y d e.console.sram;
      } in
      record e {
        console =
            if ltb con.x 31
            then record con { x = con.x + 1 }
            else line_down sram font (record con { x = 0 });
        buffer = store e.buffer e.pos d;
        pos = u8 (e.pos + 1);
        end = u8 (e.pos + 1);
      }

  -- The place of the last character of the longer line, and the console, scrolled up where that
  -- place is below the screen.
  unfoldable pub last_place : ℕ → Console M → (ℕ × ℕ) × Console M
  last_place n con =
      let i = u8 (con.x + n) in
      let j = u8 (con.y + 1) in
      if ltb 31 i
      then (if ltb 23 j
          then (
            (i - 32, j - 1),
            record con { y = u8 (con.y + 255); sram = scroll_up sram con.sram },
          )
          else ((i - 32, j), con))
      else ((i, con.y), con)

  -- A key in the middle of the line.
  unfoldable pub insert : ℕ → Editor M → Editor M
  unfolding last_place open_gap
  insert d e =
      let end = u8 (e.end + 1) in
      let (at, con) = last_place (end - 1 - e.pos) e.console in
      let (buffer, m) = open_gap (end - 1 - e.pos) (end - 1) at e.buffer con.sram in
      record e {
        console = record con { sram = video_put_char sram font con.x con.y d m };
        buffer = store buffer e.pos d;
        end = end;
      }

  -- The switch of `buffered_input`, but for the new line.
  unfoldable pub press : ℕ → ℕ → Editor M → Editor M
  press size d e =
      let off = record e { console = video_cursor_off sram e.console } in
      if d == 0
      then blink e
      else if d == 0x11
      then move_left off
      else if d == 0x10
      then move_right off
      else if d == 0x08
      then backspace off
      else if e.end + 1 == size
      then off
      else if e.pos == e.end
      then append d off
      else insert d off

  -- The new line: the text ends with a 0 in the buffer.
  unfoldable pub finish : Editor M → Editor M
  finish e =
      let con = video_cursor_off sram e.console in
      record e {
        console = line_down sram font (record con { x = 0 });
        buffer = store e.buffer e.end 0;
      }

  -- The loop over what `keyboard_asc` gives round by round: the length of the line, the state at
  -- the end and the keys behind the new line; `none` is a line that is not finished.
  unfoldable pub edit : ℕ → List ℕ → Editor M → Option (ℕ × Editor M × List ℕ)
  unfolding press finish
  edit size [] e = none
  edit size (d ∷ keys) e =
      let rest = edit size keys (press size d e) in
      if d == 0x0a then some (e.end, finish e, keys) else rest

  unfoldable pub buffered_input : (ℕ → ℕ) → ℕ → List ℕ → Console M → Option (ℕ × Editor M × List ℕ)
  unfolding edit
  buffered_input buffer size keys con =
      edit size keys (record { console = con; buffer = buffer; pos = 0; end = 0; cnt = 0 })
