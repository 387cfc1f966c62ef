-- ===== src/Editor/Examples.antt =====
-- Lines that are typed on the flat memory of vm/test/test.c, and the theorems about them.
use dan.Prelude.{ℕ, ◌<◌, ◌≡◌, ◌∷◌, [], List, refl, arith, false, some}
use dan.Vm.FlatRam.{Ram, flat_ram}
use dan.Console.{Console, video_cursor_off, line_down}
use dan.Editor.{
  last_place, Editor, press, finish, edit, buffered_input, move_left, move_right, append, insert,
}
use dan.Editor.Line.{line, key}
use dan.Editor.Input.{returned, zstring, buffered_input-line}
use dan.Editor.Bounds.{buffered_input-bounds}

abbrev font : ℕ → ℕ
font i = 0xaa

abbrev blank : ℕ → ℕ
blank _ = 0

abbrev bottom : Console Ram
bottom = record { x = 0; y = 23; cursor = false; sram = λ _. 0 }

-- "hi", the left key, "x" and the new line; one key is left.
abbrev typed : List ℕ
typed = b'h' ∷ b'i' ∷ 0x11 ∷ b'x' ∷ 0x0a ∷ b'z' ∷ []

buffered_input-line_example :
    returned (buffered_input flat_ram font blank 64 typed bottom)
    ≡ zstring (line 64 typed (record { text = []; pos = 0 }))
buffered_input-line_example =
    buffered_input-line flat_ram font blank 64 typed bottom (omega arith) (omega arith)

hxi :
    zstring (line 64 typed (record { text = []; pos = 0 }))
    ≡ some (3, b'h' ∷ b'x' ∷ b'i' ∷ 0 ∷ [], b'z' ∷ [])
unfolding line key
hxi = refl

-- Two characters in the middle of a line come out in reverse order.
reversed :
    zstring (line 64 (b'c' ∷ 0x11 ∷ b'a' ∷ b'b' ∷ 0x0a ∷ []) (record { text = []; pos = 0 }))
    ≡ some (3, b'b' ∷ b'a' ∷ b'c' ∷ 0 ∷ [], [])
unfolding line key
reversed = refl

pressed : List ℕ → Editor Ram → Editor Ram
pressed [] e = e
pressed (d ∷ keys) e = pressed keys (press flat_ram font 64 d e)

-- 31 characters.
abbrev full : List ℕ → List ℕ
full keys =
    97 ∷ 97 ∷ 97 ∷ 97 ∷ 97 ∷ 97 ∷ 97 ∷ 97 ∷ 97 ∷ 97 ∷ 97 ∷ 97 ∷ 97 ∷ 97 ∷ 97 ∷ 97 ∷ 97 ∷ 97 ∷ 97
    ∷ 97 ∷ 97 ∷ 97 ∷ 97 ∷ 97 ∷ 97 ∷ 97 ∷ 97 ∷ 97 ∷ 97 ∷ 97 ∷ 97 ∷ keys

-- A line in the last row that a key in its middle makes fill the row: the right key then takes the
-- cursor below the screen.
leaves_screen :
    (pressed
      (full (0x11 ∷ b'b' ∷ 0x10 ∷ 0x10 ∷ []))
      (record { console = bottom; buffer = blank; pos = 0; end = 0; cnt = 0 })).console.y
    ≡ 24
unfolding pressed press append insert move_left move_right video_cursor_off line_down
leaves_screen = refl

-- From column 20 a line of 60 characters is longer than two rows: the next key in its middle asks
-- for a character in column 47.
abbrev third_row : Console Ram
third_row = record { x = 20; y = 0; cursor = false; sram = λ _. 0 }

leaves_columns : (last_place flat_ram font 59 third_row).0 ≡ (47, 1)
unfolding last_place
leaves_columns = refl

buffered_input-bounds_example :
    (1 < 64)
    × ((finish flat_ram font (
            press flat_ram font 64 b'h'
              (record { console = bottom; buffer = blank; pos = 0; end = 0; cnt = 0 }))).buffer
          64
        ≡ blank 64)
unfolding append
buffered_input-bounds_example =
    buffered_input-bounds flat_ram font 64 64 (omega arith) blank (b'h' ∷ 0x0a ∷ []) bottom 1
      (finish flat_ram font (
        press flat_ram font 64 b'h'
          (record { console = bottom; buffer = blank; pos = 0; end = 0; cnt = 0 })))
      [] (omega arith) (omega arith) (unfold buffered_input edit in refl)
