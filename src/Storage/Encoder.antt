-- ===== src/Storage/Encoder.antt =====
-- The encoder of storage/storage.c: every bit is a half pulse, a run of samples at one level, long
-- for 1 and short for 0.
use dan.Prelude.{
  ℕ, zero, suc, ◌*◌, ◌/◌, ◌%◌, Bool, false, ◌==◌, if◌then◌else◌, bit_and, bit_xor, u8, u16, List,
  [], ◌∷◌, length,
}
use dan.Prelude.Int.{ℤ, pos, negsuc, negate}

-- `struct encoder_struct`; `param` is the state that the callback `write` works on.
pub record Encoder (P : Type 0) : Type 0 where
  pub volume : ℕ  -- int16_t, 16000 or 32000
  pub parity : ℕ  -- uint8_t
  pub level : ℤ  -- int8_t, 1 or -1
  pub param : P

-- `_freqs[bit]`: SAMPLERATE / LONG_PULSE and SAMPLERATE / SHORT_PULSE, of 1200 and of 2760.
unfoldable pub freqs : ℕ → ℕ → ℕ
freqs samplerate bit = if bit == 0 then samplerate / 1200 else samplerate / 2760

-- `enc->volume * enc->level`
unfoldable pub sample : ℕ → ℤ → ℤ
sample volume (pos n) = pos (volume * n)
sample volume (negsuc n) = negate (pos (volume * suc n))

-- `enc->level > 0 ? -1 : 1`
unfoldable pub other_level : ℤ → ℤ
other_level (pos zero) = pos 1
other_level (pos (suc n)) = negsuc 0
other_level (negsuc n) = pos 1

module _ {P : Type 0} (samplerate : ℕ) (write : ℤ → P → P) where
  -- `write` with one sample, `n` times.
  unfoldable pub repeat : ℕ → ℤ → P → P
  repeat zero s p = p
  repeat (suc n) s p = repeat n s (write s p)

  unfoldable pub half_pulse : ℕ → Encoder P → Encoder P
  unfolding repeat sample other_level freqs
  half_pulse bit enc = record enc {
    param = repeat (freqs samplerate bit) (sample enc.volume enc.level) enc.param;
    level = other_level enc.level;
  }

  -- The loop of `_encode_byte` from a bit on, with the rounds left: `!((byte >> bit) & 1)`.
  unfoldable pub encode_bits : ℕ → ℕ → Encoder P → Encoder P
  unfolding half_pulse
  encode_bits zero byte enc = enc
  encode_bits (suc n) byte enc =
      encode_bits n (byte / 2) (half_pulse (if bit_and byte 1 == 0 then 1 else 0) enc)

  unfoldable pub encode_plain : ℕ → Encoder P → Encoder P
  unfolding encode_bits
  encode_plain byte enc = encode_bits 8 byte enc

  unfoldable pub encode_byte : ℕ → Encoder P → Encoder P
  unfolding encode_plain
  encode_byte byte enc =
      let enc' = encode_plain byte enc in record enc' { parity = bit_xor enc'.parity byte }

  -- The beginning of `encode_header`, on the AVR and elsewhere with one more half pulse in front.
  unfoldable pub encode_sync : Bool → Encoder P → Encoder P
  unfolding half_pulse
  encode_sync avr enc = half_pulse 1 (
      if avr
      then record enc { parity = 0; level = negsuc 0 }
      else half_pulse 1 (record enc { parity = 0; level = pos 1 }))

  unfoldable pub encode_header : Bool → ℕ → Encoder P → Encoder P
  unfolding encode_byte encode_sync
  encode_header avr n enc =
      let magic = encode_plain 0xff (encode_sync avr enc) in
      let lengths = encode_byte (n % 256) (encode_byte (u8 (n / 256)) magic) in
      record (encode_plain lengths.parity lengths) { parity = 0 }

  unfoldable pub encode_end : Encoder P → Encoder P
  unfolding encode_plain half_pulse
  encode_end enc =
      half_pulse 0 (record (half_pulse 0 (encode_plain enc.parity enc)) { level = negsuc 0 })

  -- The bytes of a file or of the memory between header and end.
  unfoldable pub encode_all : List ℕ → Encoder P → Encoder P
  unfolding encode_byte
  encode_all [] enc = enc
  encode_all (b ∷ bs) enc = encode_all bs (encode_byte b enc)

  -- `encode` of tools/encode.c between the files: the length is kept in a `uint16_t`.
  unfoldable pub encode_file : List ℕ → Encoder P → Encoder P
  unfolding encode_header encode_all encode_end
  encode_file bs enc = encode_end (encode_all bs (encode_header false (u16 (length bs)) enc))
