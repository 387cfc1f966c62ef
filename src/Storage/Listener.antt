-- ===== src/Storage/Listener.antt =====
-- The receiving side of storage/storage.c: `ain_on` and the interrupt routine PCINT1_vect, which
-- takes the length of a pulse at every change of the pin and puts the bytes into the buffer.
pub mod Heard
pub mod Wire
pub mod Roundtrip
pub mod Frames
pub mod Sync
use dan.Prelude.{ℕ, ◌+◌, ◌*◌, ◌^◌, ◌==◌, Bool, ltb, if◌then◌else◌, bit_or, u8, List, [], ◌∷◌}
use dan.Ring.{Ring, insert}

abbrev pub ain_buffer_size : ℕ
ain_buffer_size = 32

-- `ain_buffer`, `ain_start`, `ain_end` and `ain_sync`; the routine's static `bit` and `byte`.
pub record Listener : Type 0 where
  pub ain : Ring
  pub sync : ℕ
  pub bit : ℕ
  pub byte : ℕ

unfoldable pub ain_on : Listener → Listener
ain_on l = record l { ain = record { buffer = l.ain.buffer; start = 0; stop = 0 }; sync = 0 }

-- `pulse_length > SHORT_TIME`, which is 62500 / 2760 + 16 in floating point.
unfoldable pub is_long : ℕ → Bool
is_long pulse_length = ltb (62500 + 16 * 2760) (pulse_length * 2760)

-- PCINT1_vect; `pulse_length` is what TCNT2 has counted.
unfoldable pub pin_change : ℕ → Listener → Listener
unfolding is_long
pin_change pulse_length l =
    if ltb l.sync 4
    then record l { sync = l.sync + 1; bit = 0; byte = 0 }
    else let byte = if is_long pulse_length then u8 (bit_or l.byte (2 ^ l.bit)) else l.byte in
      if u8 (l.bit + 1) == 8
      then record l { ain = insert ain_buffer_size byte l.ain; bit = 0; byte = 0 }
      else record l { bit = u8 (l.bit + 1); byte = byte }

-- The changes of the pin one after the other.
unfoldable pub listen : List ℕ → Listener → Listener
listen [] l = l
listen (p ∷ ps) l = listen ps (pin_change p l)
