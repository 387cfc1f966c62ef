-- ===== src/Keyboard/Examples.antt =====
-- Keys that are pressed, and the theorem about them.
use dan.Prelude.{◌≡◌, true, false, some, refl, arith, [], ◌∷◌}
use dan.Ring.Queue.{IsValid}
use dan.Keyboard.{Keyboard, keyb_buffer_size, keyboard_asc, mapped}
use dan.Keyboard.Keys.{keys, pending, view, keyboard_asc-keys}

-- Shift is in the buffer and its key A on the way; then A is released and pressed without shift.
abbrev typed : Keyboard
typed = record {
  usart = 0x1c ∷ 0xf0 ∷ 0x1c ∷ 0xf0 ∷ 0x12 ∷ 0x1c ∷ [];
  keyb = record { buffer = λ _. 0x12; start = 15; stop = 0 };
  shift = false;
  released = false;
}

abbrev typed-IsValid : IsValid keyb_buffer_size typed.keyb
typed-IsValid = record { start_in = omega arith; stop_in = omega arith }

keyboard_asc-keys_example : view (keyboard_asc 8 typed) ≡ some (keys (pending typed) false false)
keyboard_asc-keys_example = keyboard_asc-keys 8 typed typed-IsValid (omega arith) (omega arith)

shift_a :
    keys (pending typed) false false
    ≡ (65, record { codes = 0xf0 ∷ 0x1c ∷ 0xf0 ∷ 0x12 ∷ 0x1c ∷ []; shift = true; released = false })
unfolding keys mapped
shift_a = refl
