-- ===== src/Dasm/Table.antt =====
-- The table of dasm/dasm.c; the addressing types of include/dasm.h go by the names that the model
-- of the virtual machine uses.
use dan.Prelude.{ℕ, List, [], ◌∷◌}
use dan.Vm.Decode.{
  Mode, implied, accumulator, immediate, relative, zero_page, zero_page_x, zero_page_y, absolute,
  absolute_x, absolute_y, index_ind, ind_index, ind_abs,
}

-- Five bytes of the table: the opcode, three letters, the addressing type.
pub record Entry : Type 0 where
  pub opcode : ℕ
  pub mnemonic : List ℕ
  pub mode : Mode

abbrev on : ℕ → ℕ → ℕ → ℕ → Mode → Entry
on op a b c m = record { opcode = op; mnemonic = a ∷ b ∷ c ∷ []; mode = m }

unfoldable pub vm_op_tbl : List Entry
vm_op_tbl =
    on 0x00 b'B' b'R' b'K' implied
    ∷ on 0x01 b'O' b'R' b'A' zero_page_x
    ∷ on 0x02 b'S' b'Y' b'S' implied
    ∷ on 0x05 b'O' b'R' b'A' zero_page
    ∷ on 0x06 b'A' b'S' b'L' zero_page
    ∷ on 0x08 b'P' b'H' b'P' implied
    ∷ on 0x09 b'O' b'R' b'A' immediate
    ∷ on 0x0a b'A' b'S' b'L' accumulator
    ∷ on 0x0d b'O' b'R' b'A' absolute
    ∷ on 0x0e b'A' b'S' b'L' absolute
    ∷ on 0x10 b'B' b'P' b'L' relative
    ∷ on 0x11 b'O' b'R' b'A' ind_index
    ∷ on 0x15 b'O' b'R' b'A' zero_page_x
    ∷ on 0x16 b'A' b'S' b'L' zero_page_x
    ∷ on 0x18 b'C' b'L' b'C' implied
    ∷ on 0x19 b'O' b'R' b'A' absolute_y
    ∷ on 0x1d b'O' b'R' b'A' absolute_x
    ∷ on 0x1e b'A' b'S' b'L' absolute_x
    ∷ on 0x20 b'J' b'S' b'R' absolute
    ∷ on 0x21 b'A' b'N' b'D' zero_page_x
    ∷ on 0x24 b'B' b'I' b'T' zero_page
    ∷ on 0x25 b'A' b'N' b'D' zero_page
    ∷ on 0x26 b'R' b'O' b'L' zero_page
    ∷ on 0x28 b'P' b'L' b'P' implied
    ∷ on 0x29 b'A' b'N' b'D' immediate
    ∷ on 0x2a b'R' b'O' b'L' accumulator
    ∷ on 0x2c b'B' b'I' b'T' absolute
    ∷ on 0x2d b'A' b'N' b'D' absolute
    ∷ on 0x2e b'R' b'O' b'L' absolute
    ∷ on 0x30 b'B' b'M' b'I' relative
    ∷ on 0x31 b'A' b'N' b'D' ind_index
    ∷ on 0x35 b'A' b'N' b'D' zero_page_x
    ∷ on 0x36 b'R' b'O' b'L' zero_page_x
    ∷ on 0x38 b'S' b'E' b'C' implied
    ∷ on 0x39 b'A' b'N' b'D' absolute_y
    ∷ on 0x3d b'O' b'R' b'A' absolute_x
    ∷ on 0x3e b'R' b'O' b'L' absolute_x
    ∷ on 0x40 b'R' b'T' b'I' implied
    ∷ on 0x41 b'E' b'O' b'R' index_ind
    ∷ on 0x45 b'E' b'O' b'R' zero_page
    ∷ on 0x46 b'L' b'S' b'R' zero_page
    ∷ on 0x48 b'P' b'H' b'A' implied
    ∷ on 0x49 b'E' b'O' b'R' immediate
    ∷ on 0x4a b'L' b'S' b'R' accumulator
    ∷ on 0x4c b'J' b'M' b'P' absolute
    ∷ on 0x4d b'E' b'O' b'R' absolute
    ∷ on 0x4e b'L' b'S' b'R' absolute
    ∷ on 0x50 b'B' b'V' b'C' relative
    ∷ on 0x51 b'E' b'O' b'R' ind_index
    ∷ on 0x55 b'E' b'O' b'R' zero_page_x
    ∷ on 0x56 b'L' b'S' b'R' zero_page_x
    ∷ on 0x58 b'C' b'L' b'I' implied
    ∷ on 0x59 b'E' b'O' b'R' absolute_y
    ∷ on 0x5d b'E' b'O' b'R' absolute_x
    ∷ on 0x5e b'L' b'S' b'R' absolute_x
    ∷ on 0x60 b'R' b'T' b'S' implied
    ∷ on 0x61 b'A' b'D' b'C' zero_page_x
    ∷ on 0x65 b'A' b'D' b'C' zero_page
    ∷ on 0x66 b'R' b'O' b'R' zero_page
    ∷ on 0x68 b'P' b'L' b'A' implied
    ∷ on 0x69 b'A' b'D' b'C' immediate
    ∷ on 0x6a b'R' b'O' b'R' accumulator
    ∷ on 0x6c b'J' b'M' b'P' ind_abs
    ∷ on 0x6d b'A' b'D' b'C' absolute
    ∷ on 0x6e b'R' b'O' b'R' absolute
    ∷ on 0x70 b'B' b'V' b'S' relative
    ∷ on 0x71 b'A' b'D' b'C' ind_index
    ∷ on 0x75 b'A' b'D' b'C' zero_page_x
    ∷ on 0x76 b'R' b'O' b'R' zero_page_x
    ∷ on 0x78 b'S' b'E' b'I' implied
    ∷ on 0x79 b'A' b'D' b'C' absolute_y
    ∷ on 0x7d b'A' b'D' b'C' absolute_x
    ∷ on 0x7e b'R' b'O' b'R' absolute_x
    ∷ on 0x81 b'S' b'T' b'A' index_ind
    ∷ on 0x84 b'S' b'T' b'Y' zero_page
    ∷ on 0x85 b'S' b'T' b'A' zero_page
    ∷ on 0x86 b'S' b'T' b'X' zero_page
    ∷ on 0x88 b'D' b'E' b'Y' implied
    ∷ on 0x8a b'T' b'X' b'A' implied
    ∷ on 0x8c b'S' b'T' b'Y' absolute
    ∷ on 0x8d b'S' b'T' b'A' absolute
    ∷ on 0x8e b'S' b'T' b'X' absolute
    ∷ on 0x90 b'B' b'C' b'C' relative
    ∷ on 0x91 b'S' b'T' b'A' ind_index
    ∷ on 0x94 b'S' b'T' b'Y' zero_page_x
    ∷ on 0x95 b'S' b'T' b'A' zero_page_x
    ∷ on 0x96 b'S' b'T' b'X' zero_page_y
    ∷ on 0x98 b'T' b'Y' b'A' implied
    ∷ on 0x99 b'S' b'T' b'A' absolute_y
    ∷ on 0x9a b'T' b'X' b'S' implied
    ∷ on 0x9d b'S' b'T' b'A' absolute_x
    ∷ on 0xa0 b'L' b'D' b'Y' immediate
    ∷ on 0xa1 b'L' b'D' b'A' zero_page_x
    ∷ on 0xa2 b'L' b'D' b'X' immediate
    ∷ on 0xa4 b'L' b'D' b'Y' zero_page
    ∷ on 0xa5 b'L' b'D' b'A' zero_page
    ∷ on 0xa6 b'L' b'D' b'X' zero_page
    ∷ on 0xa8 b'T' b'A' b'Y' implied
    ∷ on 0xa9 b'L' b'D' b'A' immediate
    ∷ on 0xaa b'T' b'A' b'X' implied
    ∷ on 0xac b'L' b'D' b'Y' absolute
    ∷ on 0xad b'L' b'D' b'A' absolute
    ∷ on 0xae b'L' b'D' b'X' absolute
    ∷ on 0xb0 b'B' b'C' b'S' relative
    ∷ on 0xb1 b'L' b'D' b'A' ind_index
    ∷ on 0xb4 b'L' b'D' b'Y' zero_page_x
    ∷ on 0xb5 b'L' b'D' b'A' zero_page_x
    ∷ on 0xb6 b'L' b'D' b'X' zero_page_y
    ∷ on 0xb8 b'C' b'L' b'V' implied
    ∷ on 0xb9 b'L' b'D' b'A' absolute_y
    ∷ on 0xba b'T' b'S' b'X' implied
    ∷ on 0xbc b'L' b'D' b'Y' absolute_x
    ∷ on 0xbd b'L' b'D' b'A' absolute_x
    ∷ on 0xbe b'L' b'D' b'X' absolute_y
    ∷ on 0xc0 b'C' b'P' b'Y' immediate
    ∷ on 0xc1 b'C' b'M' b'P' zero_page_x
    ∷ on 0xc4 b'C' b'P' b'Y' zero_page
    ∷ on 0xc5 b'C' b'M' b'P' zero_page
    ∷ on 0xc6 b'D' b'E' b'C' zero_page
    ∷ on 0xc8 b'I' b'N' b'Y' implied
    ∷ on 0xc9 b'C' b'M' b'P' immediate
    ∷ on 0xca b'D' b'E' b'X' implied
    ∷ on 0xcc b'C' b'P' b'Y' absolute
    ∷ on 0xcd b'C' b'M' b'P' absolute
    ∷ on 0xce b'D' b'E' b'C' absolute
    ∷ on 0xd0 b'B' b'N' b'E' relative
    ∷ on 0xd1 b'C' b'M' b'P' ind_index
    ∷ on 0xd5 b'C' b'M' b'P' zero_page_x
    ∷ on 0xd6 b'D' b'E' b'C' zero_page_x
    ∷ on 0xd8 b'C' b'L' b'D' implied
    ∷ on 0xd9 b'C' b'M' b'P' absolute_y
    ∷ on 0xdd b'C' b'M' b'P' absolute_x
    ∷ on 0xde b'D' b'E' b'C' absolute_x
    ∷ on 0xe0 b'C' b'P' b'X' immediate
    ∷ on 0xe1 b'S' b'B' b'C' zero_page_x
    ∷ on 0xe4 b'C' b'P' b'X' zero_page
    ∷ on 0xe5 b'S' b'B' b'C' zero_page
    ∷ on 0xe6 b'I' b'N' b'C' zero_page
    ∷ on 0xe8 b'I' b'N' b'X' implied
    ∷ on 0xe9 b'S' b'B' b'C' immediate
    ∷ on 0xea b'N' b'O' b'P' implied
    ∷ on 0xec b'C' b'P' b'X' absolute
    ∷ on 0xed b'S' b'B' b'C' absolute
    ∷ on 0xee b'I' b'N' b'C' absolute
    ∷ on 0xf0 b'B' b'E' b'Q' relative
    ∷ on 0xf1 b'S' b'B' b'C' ind_index
    ∷ on 0xf5 b'S' b'B' b'C' zero_page_x
    ∷ on 0xf6 b'I' b'N' b'C' zero_page_x
    ∷ on 0xf8 b'S' b'E' b'D' implied
    ∷ on 0xf9 b'S' b'B' b'C' absolute_y
    ∷ on 0xfd b'S' b'B' b'C' absolute_x
    ∷ on 0xfe b'I' b'N' b'C' absolute_x
    ∷ []
