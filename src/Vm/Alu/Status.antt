-- ===== src/Vm/Alu/Status.antt =====
-- The flags of a status register that is put together by the statements of vm/vm.c.
use dan.Prelude.{ℕ, ◌≡◌, ◌∙◌, ◌==◌, Bool, if◌then◌else◌, arith, bit_or}
use dan.Bits.Flag.{flag, flag-le, flags}
use dan.Vm.Flags.{cf, zf, intf, df, bf, vf, nf, sbit, clear, test_n, test_z, test_c, set_nz}
use dan.Vm.Alu.{nzc, vnzc}

abbrev pub to_bit : Bool → ℕ
to_bit b = if b then 1 else 0

-- The flags that the machine's arithmetic does not define: I, D, B and the unused bit.
abbrev pub SameRest : ℕ → ℕ → Type 0
SameRest s s' =
    (flag intf s' ≡ flag intf s)
    × (flag df s' ≡ flag df s)
    × (flag bf s' ≡ flag bf s)
    × (flag 5 s' ≡ flag 5 s)

-- A register over `s` with the four flags of an addition.
pub record IsVnzc (s : ℕ) (v n z c : ℕ) (s' : ℕ) : Type 0 where
  pub carry : flag cf s' ≡ c
  pub zero_flag : flag zf s' ≡ z
  pub overflow : flag vf s' ≡ v
  pub negative : flag nf s' ≡ n
  pub rest : SameRest s s'

pub vnzc_status :
    (s : ℕ) (v c : Bool) (x y : ℕ)
    → IsVnzc s (to_bit v) (flag nf x) (to_bit (y == 0)) (to_bit c) (
        bit_or (clear vnzc s) (
          bit_or
            (bit_or (bit_or (if v then sbit vf else 0) (if c then sbit cf else 0)) (test_n x))
            (test_z y)))
unfolding clear test_n test_z
vnzc_status s v c x y = record {
  carry = simp flags (ground (arith, flag-le 0 s));
  zero_flag = simp flags (ground (arith, flag-le 1 s));
  overflow = simp flags (ground (arith, flag-le 6 s));
  negative = simp flags (ground (arith, flag-le 7 x));
  rest = simp flags (ground (arith, flag-le 2 s, flag-le 3 s, flag-le 4 s, flag-le 5 s));
}

-- In decimal mode V and N are cleared.
pub decimal_status :
    (s : ℕ) (c : Bool) (y : ℕ)
    → IsVnzc s 0 0
        (to_bit (y == 0))
        (to_bit c)
        (bit_or (clear vnzc s) (bit_or (if c then sbit cf else 0) (test_z y)))
unfolding clear test_z
decimal_status s c y = record {
  carry = simp flags (ground (arith, flag-le 0 s));
  zero_flag = simp flags (ground (arith, flag-le 1 s));
  overflow = simp flags (ground (arith, flag-le 6 s));
  negative = simp flags (ground (arith, flag-le 7 s));
  rest = simp flags (ground (arith, flag-le 2 s, flag-le 3 s, flag-le 4 s, flag-le 5 s));
}

-- N and Z from a byte; C and V stay.
pub set_nz_status :
    (v s : ℕ) → IsVnzc s (flag vf s) (flag nf v) (to_bit (v == 0)) (flag cf s) (set_nz v s)
unfolding set_nz
set_nz_status v s = record {
  carry = simp flags (ground (arith, flag-le 0 s));
  zero_flag = simp flags (ground (arith, flag-le 1 s));
  overflow = simp flags (ground (arith, flag-le 6 s));
  negative = simp flags (ground (arith, flag-le 7 v));
  rest = simp flags (ground (arith, flag-le 2 s, flag-le 3 s, flag-le 4 s, flag-le 5 s));
}

-- N and Z from a byte, and C; V stays.
pub nzc_status :
    (s : ℕ) (c : Bool) (x : ℕ)
    → IsVnzc s
        (flag vf s)
        (flag nf x)
        (to_bit (x == 0))
        (to_bit c)
        (bit_or (clear nzc s) (bit_or (bit_or (test_n x) (test_z x)) (if c then sbit cf else 0)))
unfolding clear test_n test_z
nzc_status s c x = record {
  carry = simp flags (ground (arith, flag-le 0 s));
  zero_flag = simp flags (ground (arith, flag-le 1 s));
  overflow = simp flags (ground (arith, flag-le 6 s));
  negative = simp flags (ground (arith, flag-le 7 x));
  rest = simp flags (ground (arith, flag-le 2 s, flag-le 3 s, flag-le 4 s, flag-le 5 s));
}

-- A shift to the right takes C from the bit that leaves.
pub right_status :
    (s t x : ℕ)
    → IsVnzc s
        (flag vf s)
        (flag nf x)
        (to_bit (x == 0))
        (flag cf t)
        (bit_or (clear nzc s) (bit_or (bit_or (test_n x) (test_z x)) (test_c t)))
unfolding clear test_n test_z test_c
right_status s t x = record {
  carry = simp flags (ground (arith, flag-le 0 s, flag-le 0 t));
  zero_flag = simp flags (ground (arith, flag-le 1 s));
  overflow = simp flags (ground (arith, flag-le 6 s));
  negative = simp flags (ground (arith, flag-le 7 x));
  rest = simp flags (ground (arith, flag-le 2 s, flag-le 3 s, flag-le 4 s, flag-le 5 s));
}

pub lsr_status :
    (s t x : ℕ)
    → IsVnzc s
        (flag vf s)
        0
        (to_bit (x == 0))
        (flag cf t)
        (bit_or (clear nzc s) (bit_or (test_z x) (test_c t)))
unfolding clear test_z test_c
lsr_status s t x = record {
  carry = simp flags (ground (arith, flag-le 0 s, flag-le 0 t));
  zero_flag = simp flags (ground (arith, flag-le 1 s));
  overflow = simp flags (ground (arith, flag-le 6 s));
  negative = simp flags (ground (arith, flag-le 7 s));
  rest = simp flags (ground (arith, flag-le 2 s, flag-le 3 s, flag-le 4 s, flag-le 5 s));
}

-- The flags in another form.
pub IsVnzc-cast :
    {s v v' n n' z z' c c' s' : ℕ}
    → IsVnzc s v n z c s'
    → v ≡ v'
    → n ≡ n'
    → z ≡ z'
    → c ≡ c'
    → IsVnzc s v' n' z' c' s'
IsVnzc-cast st ev en ez ec = record {
  carry = st.carry ∙ ec;
  zero_flag = st.zero_flag ∙ ez;
  overflow = st.overflow ∙ ev;
  negative = st.negative ∙ en;
  rest = st.rest;
}
