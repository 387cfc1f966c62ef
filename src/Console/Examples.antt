-- ===== src/Console/Examples.antt =====
-- The console on the flat memory of vm/test/test.c, with a font of numbered lines.
use dan.Prelude.{◌==◌, ◌&&◌, u8, arith, false, ℕ, ◌+◌, ◌*◌, ◌≡◌, ltb, if◌then◌else◌}
use dan.Vm.FlatRam.{Ram, flat_ram}
use dan.Console.{Console}
use dan.Console.Screen.{scroll_up, video_put_char}
use dan.Console.Screen.Shown.{scroll_up_lem, shown, video_put_char_lem}

abbrev font : ℕ → ℕ
font i = i

abbrev empty : Ram
empty _ = 0

abbrev corner : Console Ram
corner = record { x = 31; y = 23; cursor = false; sram = empty }

scroll_up_lem_example : flat_ram.peek (scroll_up flat_ram empty) 0x300 ≡ (
    if ltb 0x300 0x200
    then flat_ram.peek empty 0x300
    else if ltb 0x300 (0x200 + 23 * 256)
    then flat_ram.peek empty (0x300 + 256)
    else if ltb 0x300 (0x200 + 24 * 256)
    then 0
    else flat_ram.peek empty 0x300)
scroll_up_lem_example = scroll_up_lem flat_ram empty 0x300

video_put_char_lem_example :
    shown flat_ram (video_put_char flat_ram font 3 4 65 empty) 3 4 7
    ≡ (if (3 == 3) && (4 == 4) then u8 (font (7 + 65 * 8)) else shown flat_ram empty 3 4 7)
video_put_char_lem_example =
    video_put_char_lem flat_ram font 3 4 65 empty 3 4 7 (omega arith) (omega arith) (omega arith)
      (omega arith) (omega arith)
