-- ===== src/Keyboard.antt =====
-- input/keyboard.c: scan codes from the USART through a buffer to characters.
pub mod Map
pub mod Keys
mod Examples
use dan.Prelude.{
  ℕ, zero, suc, ◌+◌, Bool, true, false, not, ◌||◌, ◌==◌, ltb, if◌then◌else◌, Option, none, some,
  List, [], ◌∷◌, get_or,
}
use dan.Ring.{Ring, insert, take_out}
use dan.Keyboard.Map.{keyb_map, keyb_max_scancode}

abbrev pub keyb_buffer_size : ℕ
keyb_buffer_size = 16

-- `usart` is what has arrived at the USART and waits to be read, the oldest byte first; the other
-- fields are `keyb_buffer` with its indices, `keyb_shift` and `keyb_released`.
pub record Keyboard : Type 0 where
  pub usart : List ℕ
  pub keyb : Ring
  pub shift : Bool
  pub released : Bool

unfoldable pub keyboard_flush : Keyboard → Keyboard
keyboard_flush k = record k { keyb = record { buffer = k.keyb.buffer; start = 0; stop = 0 } }

unfoldable pub keyboard_poll : Keyboard → Keyboard
keyboard_poll k = poll k.usart
  where
    poll : List ℕ → Keyboard
    poll [] = k
    poll (b ∷ bs) = record k { usart = bs; keyb = insert keyb_buffer_size b k.keyb }

unfoldable pub keyboard_scancode : Keyboard → ℕ × Keyboard
keyboard_scancode k = let (sc, r) = take_out keyb_buffer_size k.keyb in (sc, record k { keyb = r })

-- `keyb_map[sc][keyb_shift]`
unfoldable pub mapped : ℕ → Bool → ℕ
mapped sc shift = let row = get_or keyb_map sc (0, 0) in if shift then row.1 else row.0

-- The default case of the switch.
unfoldable pub character : ℕ → Bool → Bool → ℕ
unfolding mapped
character sc shift released = if released || ltb keyb_max_scancode sc then 0 else mapped sc shift

-- The test and the switch in the loop of `keyboard_asc`; the last two arguments are what the next
-- rounds give where the switch breaks.
unfoldable pub treat :
    ℕ → Keyboard → Option (ℕ × Keyboard) → Option (ℕ × Keyboard) → Option (ℕ × Keyboard)
unfolding character
treat sc k after_released after_shift =
    if sc == 0
    then some (0, k)
    else if sc == 0xf0
    then after_released
    else if (sc == 0x12) || (sc == 0x59)
    then after_shift
    else some (character sc k.shift k.released, record k { released = false })

-- `keyboard_asc` with a bound on the rounds of its loop; `none` is a loop that has not ended.
unfoldable pub keyboard_asc : ℕ → Keyboard → Option (ℕ × Keyboard)
unfolding keyboard_poll keyboard_scancode treat
keyboard_asc zero k = none
keyboard_asc (suc n) k =
    let (sc, k') = keyboard_scancode (keyboard_poll k) in
    treat sc k' (keyboard_asc n (record k' { released = true }))
      (keyboard_asc n (record k' { shift = not k'.released; released = false }))
