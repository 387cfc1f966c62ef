-- ===== src/Vm/Alu/Bytes.antt =====
-- Bytes, and the `|` of two of them.
use dan.Prelude.{ℕ, ◌<◌, bit_or}
use dan.Bits.{bit_or-lt}

abbrev pub IsByte : ℕ → Type 0
IsByte x = x < 256

pub or_IsByte : (a b : ℕ) → IsByte a → IsByte b → IsByte (bit_or a b)
or_IsByte a b ha hb = bit_or-lt 8 a b ha hb
