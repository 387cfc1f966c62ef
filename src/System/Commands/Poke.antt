-- ===== src/System/Commands/Poke.antt =====
-- The byte that `cmd_poke` stores.
use dan.Prelude.{
  ℕ, ◌+◌, ◌/◌, ◌%◌, ◌<◌, ◌≤◌, ◌≡◌, refl, ap, ◌∙◌, sym, arith, u8, u16, Option, none, some, List, [],
  ◌∷◌, ◌++◌,
}
use dan.Vm.Bus.{Bus}
use dan.Dasm.Text.{hex_digit, hex2, hex4, sscanf_x, skip_while}
use dan.Console.Screen.{one_byte}
use dan.Editor.{Editor, buffered_input}
use dan.Editor.Line.{line, key, insert_at}
use dan.Editor.Cells.{cells}
use dan.Editor.Input.{returned, zstring, buffered_input-line}
use dan.System.{Machine, print}
use dan.System.Commands.{
  chars, text_at, number_at, get_param, cmd_poke, poke_byte, poke_typed, poke_stored,
}
use dan.Dasm.Hex.{scan-hex2}

-- A printed digit is a character, no key that moves.
digit_above : (d : ℕ) → d < 16 → 48 ≤ hex_digit d
unfolding hex_digit
digit_above d h = ground arith

-- The line that two characters and the new line make.
two_typed :
    (c d : ℕ) (keys : List ℕ)
    → 48 ≤ c
    → 48 ≤ d
    → line 3 (c ∷ d ∷ 0x0a ∷ keys) (record { text = []; pos = 0 })
      ≡ some (record { text = c ∷ d ∷ []; pos = 2 }, keys)
unfolding line key insert_at
two_typed c d keys hc hd = ground arith

-- The C string of two characters and a 0.
two_chars :
    (buffer : ℕ → ℕ) (c d : ℕ)
    → 48 ≤ c
    → 48 ≤ d
    → cells buffer 0 3 ≡ c ∷ d ∷ 0 ∷ []
    → text_at buffer 0 ≡ c ∷ d ∷ []
unfolding chars
two_chars buffer c d hc hd h = ground (arith, h)

module _ {D : Type 0} (sram : Bus D) (font : ℕ → ℕ) where
  -- A byte stands at the address, the keys behind the line are left, and the address has moved on.
  abbrev pub Stored : ℕ → ℕ → List ℕ → Option (ℕ × Machine D) → Type 0
  Stored addr v keys r =
      (m : Machine D) × (r ≡ some (u16 (addr + 1), m))
      × (m.keys ≡ keys)
      × (sram.peek m.console.sram addr ≡ v)

  poke_typed-Stored :
      (addr v : ℕ) (m : Machine D) (r : Option (ℕ × Editor D × List ℕ)) (keys : List ℕ)
      → addr < 65536
      → v < 256
      → returned r ≡ some (2, hex2 v ++ 0 ∷ [], keys)
      → Stored addr v keys (poke_typed sram font addr m r)
  unfolding poke_typed poke_stored hex2
  poke_typed-Stored addr v m none keys small byte h = absurd cc
  poke_typed-Stored addr v m (some (n, e, ks)) keys small byte h =
      let two : n ≡ 2 = cc in
      let left : ks ≡ keys = cc in
      let text : cells e.buffer 0 (n + 1) ≡ hex2 v ++ 0 ∷ [] = cc in
      let d1 = digit_above (v / 16 % 16) (omega arith) in
      let d0 = digit_above (v % 16) (omega arith) in
      let string : text_at e.buffer 0 ≡ hex2 v =
        two_chars e.buffer (hex_digit (v / 16 % 16)) (hex_digit (v % 16)) d1 d0
          (ap (λ (n : ℕ). cells e.buffer 0 (n + 1)) (sym two) ∙ text) in
      let scan : sscanf_x (text_at e.buffer 0) ≡ some v =
        ap sscanf_x string ∙ (scan-hex2 v [] byte refl).0 in
      (
        record m {
          console = record e.console { sram = sram.ram_write e.console.sram addr (u8 v ∷ []) };
          buffer = e.buffer;
          keys = ks;
        },
        rw two (rw scan refl),
        left,
        one_byte sram e.console.sram addr (u8 v) addr small ∙ ground arith,
      )

  -- The command `poke` without a parameter, when two hexadecimal digits and a new line are typed,
  -- stores the byte at the address that it keeps, in the range of the serial RAM, moves the address
  -- on by one modulo 2 ^ 16, and takes no key behind the new line.
  pub cmd_poke-stores :
      (addr v : ℕ) (keys : List ℕ) (m : Machine D)
      → addr < 65536
      → v < 256
      → m.buffer 4 ≡ 0
      → m.keys ≡ hex2 v ++ 0x0a ∷ keys
      → Stored addr v keys (cmd_poke sram font addr m)
  unfolding cmd_poke poke_byte poke_typed chars get_param number_at skip_while hex2
  cmd_poke-stores addr v keys m small byte bare typed =
      let m' = print sram font (32 ∷ (hex4 addr ++ b':' ∷ 32 ∷ [])) m in
      let line : returned (buffered_input sram font m.buffer 3 m.keys m'.console)
          ≡ some (2, hex2 v ++ 0 ∷ [], keys) =
        ap (λ (ks : List ℕ). returned (buffered_input sram font m.buffer 3 ks m'.console)) typed
        ∙ buffered_input-line sram font m.buffer 3 (hex2 v ++ 0x0a ∷ keys) m'.console (omega arith)
            (omega arith)
        ∙ ap zstring (
            two_typed (hex_digit (v / 16 % 16)) (hex_digit (v % 16)) keys
              (digit_above (v / 16 % 16) (omega arith)) (digit_above (v % 16) (omega arith))) in
      rw bare (poke_typed-Stored addr v m' _ keys small byte line)
