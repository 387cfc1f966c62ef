-- ===== src/System/Commands.antt =====
-- The parameters of the commands of init/main.c, and the commands that use memory, screen and tape.
pub mod Params
pub mod Range
pub mod Poke
pub mod Typed
pub mod Code
pub mod Again
use dan.Prelude.{
  ℕ, zero, suc, ◌+◌, ◌-◌, ◌*◌, ◌==◌, ◌||◌, ltb, leb, if◌then◌else◌, u8, u16, Bool, true, false,
  Option, none, some, List, [], ◌∷◌, ◌++◌, byte, length, codes,
}
use dan.Vm.Bus.{Bus}
use dan.Dasm.Text.{hex2, hex4, sscanf_x, span_length, skip_while, is_xdigit}
use dan.Console.{Console}
use dan.Console.Screen.Clear.{video_cls}
use dan.Editor.{Editor, buffered_input}
use dan.System.{Machine, say, print, fill}
use dan.System.Storage.{load, save}

-- The C string in a buffer of 128 bytes from a place on.
unfoldable pub chars : ℕ → (ℕ → ℕ) → ℕ → List ℕ
chars zero buffer p = []
chars (suc n) buffer p =
    let rest = chars n buffer (p + 1) in if buffer p == 0 then [] else buffer p ∷ rest

abbrev pub text_at : (ℕ → ℕ) → ℕ → List ℕ
text_at buffer p = chars (128 - p) buffer p

abbrev pub is_blank : ℕ → Bool
is_blank c = c == 32

-- The `uint8_t` that `get_param` counts in: from 256 it is back at the first space, which is no digit.
abbrev pub counted : ℕ → ℕ
counted pt = if ltb 255 pt then 0 else pt

-- `get_param` behind the spaces, of which the number is given.
unfoldable pub number_at : ℕ → ℕ → List ℕ → Option (ℕ × ℕ)
number_at blanks addr [] = some (0, addr)
number_at blanks addr (c ∷ cs) = elim (sscanf_x (c ∷ cs)) [
  | none ↦ none
  | some v ↦ some (counted (blanks + span_length is_xdigit (c ∷ cs)), v)
]

-- `get_param`: the place behind the parameter and the address, which stays without a parameter;
-- `none` is -1. The string is a part of the buffer of 128 bytes: on 256 spaces, or 256 digits without a
-- space before them, the code would not return.
unfoldable pub get_param : List ℕ → ℕ → Option (ℕ × ℕ)
get_param s addr = number_at (span_length is_blank s) addr (skip_while is_blank s)

-- The test behind the name of a command.
abbrev pub ends : ℕ → Bool
ends c = c == 0 || c == 32

-- `buffer[i] == 0x09 || buffer[i] == 0x0a ? '.' : buffer[i]` as `%c`, which for 0 is no character.
unfoldable pub shown_char : ℕ → List ℕ
shown_char c = if c == 0x09 || c == 0x0a then b'.' ∷ [] else if c == 0 then [] else c ∷ []

module _ {D : Type 0} (sram : Bus D) (font : ℕ → ℕ) where
  abbrev pub cmd_err : Machine D → Machine D
  cmd_err = say sram font (codes "ERR: CMD\n") (codes "ERR: CMD\n")

  abbrev pub addr_err : Machine D → Machine D
  addr_err = say sram font (codes "ERR: ADDR\n") (codes "ERR: ADDR\n")

  -- `save` or `load`, whose result the command drops.
  abbrev pub drop_status : Option (ℕ × Machine D) → Option (Machine D)
  drop_status none = none
  drop_status (some (err, m)) = some m

  -- `next_param` is a `uint8_t`, also where `get_param` returns -1.
  abbrev pub next_param : Option (ℕ × ℕ) → ℕ × ℕ
  next_param none = (u8 (255 + 4), 0x1a00)
  next_param (some (pt, addr)) = (u8 (pt + 4), addr)

  unfoldable pub save_to : ℕ → Option (ℕ × ℕ) → Machine D → Option (Machine D)
  save_to start none m = some (addr_err m)
  save_to start (some (pt, end)) m =
      if leb end start then some (addr_err m) else drop_status (save sram font start end false m)

  unfoldable pub cmd_save : Machine D → Option (Machine D)
  cmd_save m =
      let (pt, start) = next_param (get_param (text_at m.buffer 4) 0x1a00) in
      if ends (m.buffer 4)
      then (if ends (m.buffer pt)
          then save_to start (get_param (text_at m.buffer pt) 0xffff) m
          else some (cmd_err m))
      else some (cmd_err m)

  unfoldable pub cmd_load : Machine D → Option (Machine D)
  cmd_load m = drop_status (load sram font 0x1a00 false m)

  unfoldable pub cmd_cls : Machine D → Machine D
  cmd_cls m =
      let con = m.console in
      record m { console = record con { x = 0; y = 0; sram = video_cls sram font 32 con.sram } }

  -- The two loops over the six bytes of a row.
  unfoldable pub hex_bytes : ℕ → ℕ → (ℕ → ℕ) → List ℕ
  hex_bytes zero i buffer = []
  hex_bytes (suc n) i buffer = 32 ∷ (hex2 (buffer i) ++ hex_bytes n (i + 1) buffer)

  unfoldable pub shown_bytes : ℕ → ℕ → (ℕ → ℕ) → List ℕ
  shown_bytes zero i buffer = []
  shown_bytes (suc n) i buffer = shown_char (buffer i) ++ shown_bytes n (i + 1) buffer

  -- The rows of `cmd_peek`, with the rounds left.
  unfoldable pub peek_rows : ℕ → ℕ → Machine D → ℕ × Machine D
  unfolding hex_bytes shown_bytes
  peek_rows zero addr m = (addr, m)
  peek_rows (suc n) addr m =
      let buffer = fill 6 (sram.ram_read m.console.sram addr 6) m.buffer in
      let row =
        32
        ∷ (hex4 addr
            ++ b':' ∷ (hex_bytes 6 0 buffer ++ 32 ∷ (shown_bytes 6 0 buffer ++ 10 ∷ []))) in
      peek_rows n (u16 (addr + 6)) (print sram font row (record m { buffer = buffer }))

  -- A command with the address that it keeps: an error, or what it does with the address.
  abbrev pub with_param : ℕ → ℕ → Machine D → (ℕ → ℕ × Machine D) → ℕ × Machine D
  with_param name addr m does =
      if ends (m.buffer name)
      then (elim (get_param (text_at m.buffer name) addr) [
        | none ↦ (addr, addr_err m)
        | some r ↦ does r.1
      ])
      else (addr, cmd_err m)

  unfoldable pub cmd_peek : ℕ → Machine D → ℕ × Machine D
  cmd_peek addr m = with_param 4 addr m (λ a. peek_rows 8 a m)

  unfoldable pub cmd_help : Machine D → Machine D
  cmd_help m =
      let text =
        codes
          " LOAD, SAVE [addr [addr]], RUN\n LIST [addr], AS [addr]\n PEEK [addr], POKE [addr],\n CLS, HELP\n" in
      say sram font text text m

  -- `cmd_poke` behind the input: what `sscanf` reads is stored, and the address moves on.
  unfoldable pub poke_stored : ℕ → Machine D → Option ℕ → ℕ × Machine D
  poke_stored addr m none = (addr, m)
  poke_stored addr m (some v) = (
    u16 (addr + 1),
    record m {
      console = record m.console { sram = sram.ram_write m.console.sram addr (u8 v ∷ []) };
    },
  )

  unfoldable pub poke_typed :
      ℕ → Machine D → Option (ℕ × Editor D × List ℕ) → Option (ℕ × Machine D)
  unfolding poke_stored
  poke_typed addr m none = none
  poke_typed addr m (some (n, e, keys)) =
      let m' = record m { console = e.console; buffer = e.buffer; keys = keys } in
      some (if n == 0 then (addr, m') else poke_stored addr m' (sscanf_x (text_at e.buffer 0)))

  -- `cmd_poke` behind its guards; `none` waits for a key.
  unfoldable pub poke_byte : ℕ → Machine D → Option (ℕ × Machine D)
  poke_byte addr m =
      let m' = print sram font (32 ∷ (hex4 addr ++ b':' ∷ 32 ∷ [])) m in
      poke_typed addr m' (buffered_input sram font m'.buffer 3 m'.keys m'.console)

  unfoldable pub cmd_poke : ℕ → Machine D → Option (ℕ × Machine D)
  cmd_poke addr m =
      if ends (m.buffer 4)
      then (elim (get_param (text_at m.buffer 4) addr) [
        | none ↦ some (addr, addr_err m)
        | some r ↦ poke_byte r.1 m
      ])
      else some (addr, cmd_err m)
