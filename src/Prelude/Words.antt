-- ===== src/Prelude/Words.antt =====
-- Casts to the widths of C, and the byte of a buffer.
use Prim.Native.Nat.{ℕ, ◌%◌, ◌^◌}
use mathlib.Core.List.{List}
use dan.Prelude.Lists.{get_or}

abbrev pub u8 : ℕ → ℕ
u8 n = n % 2 ^ 8

abbrev pub u16 : ℕ → ℕ
u16 n = n % 2 ^ 16

-- The byte at an index of a buffer that was filled to this index.
abbrev pub byte : List ℕ → ℕ → ℕ
byte bs i = get_or bs i 0
