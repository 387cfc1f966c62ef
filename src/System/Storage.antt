-- ===== src/System/Storage.antt =====
-- `load` and `save` of init/main.c.
pub mod Load
pub mod Save
use dan.Prelude.{
  ℕ, zero, suc, ◌+◌, ◌-◌, ◌*◌, ◌/◌, ◌%◌, ◌==◌, ◌||◌, ltb, if◌then◌else◌, u8, u16, Bool, true, false,
  Option, none, some, List, [], ◌∷◌, ◌++◌, byte, codes,
}
use dan.Prelude.Int.{ℤ, pos, negsuc}
use dan.Vm.Bus.{Bus}
use dan.Dasm.Text.{hex2}
use dan.Storage.Decoder.{Decoder, c_end, init_decoder, receive, load_status}
use dan.Storage.Encoder.{Encoder, encode_header, encode_byte, encode_end}
use dan.System.{Machine, say, fill}

-- `%u` of a 16-bit number, with the digits left.
abbrev pub digits : ℕ → ℕ → List ℕ → List ℕ
digits zero n rest = rest
digits (suc k) n rest =
    let more = digits k (n / 10) ((48 + n % 10) ∷ rest) in
    if ltb n 10 then (48 + n % 10) ∷ rest else more

-- `%i` of a `uint16_t`, which is an `int` of sixteen bits there.
unfoldable pub decimal : ℕ → List ℕ
decimal n = if ltb n 32768 then digits 5 n [] else b'-' ∷ digits 5 (65536 - n) []

-- The keys until <ENTER> or <ESC>, which is returned; `none` if neither comes.
unfoldable pub confirm : List ℕ → Option (ℕ × List ℕ)
confirm [] = none
confirm (c ∷ keys) =
    let rest = confirm keys in if (c == 0x0a) || (c == 0x1b) then some (c, keys) else rest

-- The bytes that a call of `load` gets.
abbrev pub next_tape : List (List ℕ) → List ℕ × List (List ℕ)
next_tape [] = ([], [])
next_tape (t ∷ ts) = (t, ts)

-- What a call of `aout_err` returns; without more it is 0.
unfoldable pub aout_err : List ℕ → ℕ × List ℕ
aout_err [] = (0, [])
aout_err (e ∷ errors) = (e, errors)

-- `(int8_t)(data >> 8) + 128` as a `uint8_t`.
unfoldable pub save_queue : ℤ → List ℕ → List ℕ
save_queue (pos n) sent = u8 (n / 256 + 128) ∷ sent
save_queue (negsuc n) sent = u8 (127 + 256 - n / 256) ∷ sent

-- `encode_end` if there was no error, and the error that is kept.
unfoldable pub save_last : Encoder (List ℕ) × List ℕ → ℕ × Encoder (List ℕ) × List ℕ
unfolding aout_err
save_last (enc, errors) =
    let (stopped, e) = aout_err errors in
    let (err, e') = aout_err e in
    (err, if stopped == 0 then encode_end 15625 save_queue enc else enc, e')

module _ {D : Type 0} (sram : Bus D) where
  -- The callback of `load`, on the address and the serial RAM.
  unfoldable pub load_data_write : ℕ → ℕ × D → ℕ × D
  load_data_write b (addr, d) = (u16 (addr + 1), sram.ram_write d addr (b ∷ []))

  -- The loop of `save` over the bytes, with the rounds left.
  unfoldable pub save_bytes : ℕ → ℕ → D → List ℕ → Encoder (List ℕ) → Encoder (List ℕ) × List ℕ
  unfolding aout_err
  save_bytes zero start d errors enc = (enc, errors)
  save_bytes (suc n) start d errors enc =
      let (err, errors') = aout_err errors in
      let more =
        save_bytes n (u16 (start + 1)) d errors'
          (encode_byte 15625 save_queue (byte (sram.ram_read d start 1) 0) enc) in
      if err == 0 then more else (enc, errors')

  module _ (font : ℕ → ℕ) where
    abbrev pub press_text : List ℕ
    press_text = codes "Press <ENTER> when ready,\n<ESC> to cancel...\n"

    -- What `load` says at the end.
    unfoldable pub report : Decoder (ℕ × D) → Machine D → Machine D
    report dec m = tell dec.control
      where
        tell : ℤ → Machine D
        tell (pos n) =
            if n == c_end
            then say sram font (codes "%i bytes\nReady\n")
                (decimal dec.len ++ codes " bytes\nReady\n") m
            else say sram font (codes "ERR: TIME %02x\n") (codes "ERR: TIME " ++ hex2 n ++ 10 ∷ [])
                m
        tell (negsuc n) =
            say sram font (codes "ERR: IO %02x\n") (codes "ERR: IO " ++ hex2 (n + 1) ++ 10 ∷ []) m

    -- `load` from `ain_on` on.
    unfoldable pub load_frame : ℕ → Bool → Machine D → ℕ × Machine D
    unfolding load_data_write
    load_frame dest quiet m =
        let (bytes, tapes) = next_tape m.tapes in
        let (dec, _) = receive load_data_write (init_decoder (dest, m.console.sram)) bytes in
        let m' = record m { console = record m.console { sram = dec.param.1 }; tapes = tapes } in
        (load_status dec, if quiet then m' else report dec m')

    -- `load`; `none` waits for a key.
    unfoldable pub load : ℕ → Bool → Machine D → Option (ℕ × Machine D)
    unfolding load_frame
    load dest true m = some (load_frame dest true m)
    load dest false m = go (confirm m.keys)
      where
        go : Option (ℕ × List ℕ) → Option (ℕ × Machine D)
        go none = none
        go (some (c, keys)) =
            let m' = say sram font press_text press_text (record m { keys = keys }) in
            if c == 0x1b then some (1, m') else some (load_frame dest false m')

    -- The end of `save`: what it says and returns, by the error that it has kept.
    unfoldable pub saved : ℕ → Bool → Machine D → ℕ × Encoder (List ℕ) × List ℕ → ℕ × Machine D
    saved data_len quiet m (err, enc, errors) =
        let m' = record m { errors = errors; sent = enc.param } in
        if err == 0
        then (
          0,
          if quiet
              then m'
              else say sram font (codes "%i bytes\nReady\n")
                  (decimal data_len ++ codes " bytes\nReady\n") m',
        )
        else (
          1,
          if quiet then m' else say sram font (codes "ERR: IO %02x\n") (codes "ERR: IO ff\n") m',
        )

    -- `save` from `aout_on` on.
    unfoldable pub save_frame : ℕ → ℕ → Bool → Machine D → ℕ × Machine D
    save_frame start end quiet m =
        let data_len = u16 (end + 65536 - start) in
        let enc =
          encode_header 15625 save_queue true data_len
            (record { volume = 32000; parity = 0; level = pos 1; param = m.sent }) in
        saved data_len quiet m (save_last (save_bytes data_len start m.console.sram m.errors enc))

    unfoldable pub save : ℕ → ℕ → Bool → Machine D → Option (ℕ × Machine D)
    unfolding save_frame
    save start end true m = some (save_frame start end true m)
    save start end false m = go (confirm m.keys)
      where
        go : Option (ℕ × List ℕ) → Option (ℕ × Machine D)
        go none = none
        go (some (c, keys)) =
            let m' = say sram font press_text press_text (record m { keys = keys }) in
            if c == 0x1b then some (1, m') else some (save_frame start end false m')
