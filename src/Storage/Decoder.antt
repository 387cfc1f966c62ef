-- ===== src/Storage/Decoder.antt =====
-- `decode` of storage/storage.c: a frame, byte by byte. `control` is the stage of the frame, and the
-- stage negated after an error.
pub mod Frame
pub mod Outcome
use dan.Prelude.{
  ℕ, zero, suc, ◌+◌, ◌-◌, ◌*◌, Bool, ◌==◌, if◌then◌else◌, u8, u16, bit_or, bit_xor, List, [], ◌∷◌,
}
use dan.Prelude.Int.{ℤ, pos, negsuc, negate, succ}

-- `struct decoder_struct`; `param` is the state that the callback `write` works on.
pub record Decoder (P : Type 0) : Type 0 where
  pub control : ℤ  -- int8_t
  pub len : ℕ  -- uint16_t length
  pub parity : ℕ  -- uint8_t
  pub count : ℕ  -- uint16_t
  pub param : P

abbrev pub c_magic : ℕ
c_magic = 1

abbrev pub c_len0 : ℕ
c_len0 = 2

abbrev pub c_len1 : ℕ
c_len1 = 3

abbrev pub c_par0 : ℕ
c_par0 = 4

abbrev pub c_data : ℕ
c_data = 5

abbrev pub c_par1 : ℕ
c_par1 = 6

abbrev pub c_end : ℕ
c_end = 7

-- The case label that a value of `control` selects; 0 is none.
abbrev pub label : ℤ → ℕ
label (pos n) = n
label (negsuc n) = 0

module _ {P : Type 0} where
  unfoldable pub init_decoder : P → Decoder P
  init_decoder param = record {
    control = pos c_magic;
    len = 0;
    parity = 0;
    count = 0;
    param = param;
  }

  -- `dec->control++`, and 0 is returned.
  abbrev pub advance : Decoder P → Decoder P × ℤ
  advance dec = (record dec { control = succ dec.control }, pos 0)

  -- `dec->control *= -1; return dec->control`
  abbrev pub fail : Decoder P → Decoder P × ℤ
  fail dec = (record dec { control = negate dec.control }, negate dec.control)

  -- The tests of the loop of `load` on what `decode` leaves and returns; `more` is the rest of the
  -- loop, `bytes` what has not been read.
  unfoldable pub after : Decoder P × ℤ → List ℕ → Decoder P × List ℕ → Decoder P × List ℕ
  after (dec, pos zero) bytes more = if label dec.control == c_end then (dec, bytes) else more
  after (dec, _) bytes more = (dec, bytes)

module _ {P : Type 0} (write : ℕ → P → P) where
  -- The case C_DATA.
  unfoldable pub store : Decoder P → ℕ → Decoder P × ℤ
  store dec byte =
      let dec' = record dec {
        count = u16 (dec.count + 1);
        parity = bit_xor dec.parity byte;
        param = write byte dec.param;
      } in
      if dec'.count == dec'.len then advance dec' else (dec', pos 0)

  unfoldable pub decode : Decoder P → ℕ → Decoder P × ℤ
  unfolding store
  decode dec byte =
      let c = label dec.control in
      if c == c_magic
      then (if byte == 0xff then advance dec else fail dec)
      else if c == c_len0
      then advance (record dec { len = byte; parity = bit_xor dec.parity byte })
      else if c == c_len1
      then advance
          (record dec { len = u16 (bit_or (dec.len * 256) byte); parity = bit_xor dec.parity byte })
      else if c == c_par0
      then (if byte == dec.parity then advance (record dec { parity = 0 }) else fail dec)
      else if c == c_data
      then store dec byte
      else if c == c_par1
      then (if byte == dec.parity then advance dec else fail dec)
      else if c == c_end
      then (dec, pos 0)
      else fail dec

  -- The loop of `load` in init/main.c over the bytes that arrive before the timeout: it stops when
  -- `decode` returns another value than 0 and when the frame is complete. The second part of the
  -- result is the bytes that have not been read.
  unfoldable pub receive : Decoder P → List ℕ → Decoder P × List ℕ
  unfolding after
  receive dec [] = (dec, [])
  receive dec (byte ∷ bytes) = let r = decode dec byte in after r bytes (receive r.0 bytes)

-- What `load` returns as a `uint8_t`.
unfoldable pub load_status : {P : Type 0} → Decoder P → ℕ
load_status dec = outcome dec.control
  where
    outcome : ℤ → ℕ
    outcome (pos n) = if n == c_end then 0 else u8 n
    outcome (negsuc n) = 255 - n
