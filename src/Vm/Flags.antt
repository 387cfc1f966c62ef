-- ===== src/Vm/Flags.antt =====
-- The status register: the macros of include/vm.h, with the flag numbers.
use dan.Prelude.{ℕ, ◌*◌, ◌^◌, ◌==◌, if◌then◌else◌, bit_and, bit_or, bit_xor}

-- Cf, Zf, If, Df, Bf, Vf, Nf
abbrev pub cf : ℕ
cf = 0

abbrev pub zf : ℕ
zf = 1

abbrev pub intf : ℕ
intf = 2

abbrev pub df : ℕ
df = 3

abbrev pub bf : ℕ
bf = 4

abbrev pub vf : ℕ
vf = 6

abbrev pub nf : ℕ
nf = 7

abbrev pub sbit : ℕ → ℕ
sbit x = 2 ^ x

unfoldable pub addr16 : ℕ → ℕ → ℕ
addr16 x y = bit_or x (y * 256)

unfoldable pub test_z : ℕ → ℕ
test_z x = if x == 0 then sbit zf else 0

unfoldable pub test_n : ℕ → ℕ
test_n x = bit_and x (sbit nf)

unfoldable pub test_c : ℕ → ℕ
test_c x = bit_and x (sbit cf)

unfoldable pub test_v : ℕ → ℕ
test_v x = bit_and x (sbit vf)

unfoldable pub test_d : ℕ → ℕ
test_d x = bit_and x (sbit df)

-- `s &= ~mask` on the eight bits of the status register.
unfoldable pub clear : ℕ → ℕ → ℕ
clear mask s = bit_and s (bit_xor mask 0xff)

-- The pair of statements that most instructions use: N and Z from a byte.
unfoldable pub set_nz : ℕ → ℕ → ℕ
unfolding clear test_n test_z
set_nz v s = bit_or (clear (bit_or (sbit nf) (sbit zf)) s) (bit_or (test_n v) (test_z v))
