-- ===== src/Dasm/Examples.antt =====
-- Lines that are assembled and bytes that are disassembled, and the theorems at concrete inputs.
use dan.Prelude.{codes, ◌≡◌, ◌≢◌, ◌↔◌, inr, true, false, refl, arith, [], ◌∷◌}
use dan.Vm.Decode.{Mode, Instr, Case, switch, size}
use dan.Dasm.Table.{Entry}
use dan.Dasm.Find.{find_mne, same_letters, find_opcode}
use dan.Dasm.As.{
  done, error, stuck, dasm_as, skip_whitespace, assemble, to_upper, parse_operand, get_value,
  after_paren, emit_op, dot_items,
}
use dan.Dasm.Das.{entry_text, dasm_das}
use dan.Dasm.Agree.{letters, is_misprinted, misprinted_iff}
use dan.Dasm.Dot.{dasm_as-ends}
use dan.Dasm.Words.{is_mnemonic, assembled_as}
use dan.Dasm.Roundtrip.{dasm_as-dasm_das}

-- Five bytes of 0 behind the table.
abbrev zeros : Entry
zeros = record { opcode = 0; mnemonic = 0 ∷ 0 ∷ 0 ∷ []; mode = Mode.implied }

assembles_immediate : dasm_as zeros 0 (codes " lda #$1f") ≡ done 2 (0xa9 ∷ 0x1f ∷ [])
unfolding dasm_as skip_whitespace assemble find_mne to_upper parse_operand get_value emit_op
assembles_immediate = refl

assembles_indirect : dasm_as zeros 0 (codes "STA ($20),Y") ≡ done 2 (0x91 ∷ 0x20 ∷ [])
unfolding dasm_as skip_whitespace assemble find_mne to_upper parse_operand get_value after_paren
    emit_op
assembles_indirect = refl

assembles_string :
    dasm_as zeros 0 (codes ".\"a\\\"b\", 13,$0") ≡ done 5 (97 ∷ 34 ∷ 98 ∷ 13 ∷ 0 ∷ [])
unfolding dasm_as skip_whitespace dot_items
assembles_string = refl

refuses_mode : dasm_as zeros 0 (codes "JMP #1") ≡ error
unfolding dasm_as skip_whitespace assemble find_mne to_upper parse_operand get_value emit_op
refuses_mode = refl

disassembles : dasm_das zeros 0 0xbd 0x34 0x12 ≡ (codes "LDA $1234,X", 3)
unfolding dasm_das find_opcode entry_text
disassembles = refl

-- The row of $3d.
abbrev ora_row : Entry
ora_row = record { opcode = 0x3d; mnemonic = b'O' ∷ b'R' ∷ b'A' ∷ []; mode = Mode.absolute_x }

abbrev and_case : Case
and_case = record { opcode = 0x3d; instr = Instr.and; mode = Mode.absolute_x }

misprinted_iff_example :
    ((same_letters ora_row.mnemonic (letters and_case.instr) ≡ true)
      × (ora_row.mode ≡ and_case.mode))
    ↔ (is_misprinted 0x3d ≡ false)
unfolding switch find_opcode
misprinted_iff_example = misprinted_iff zeros 0x3d (omega arith) and_case ora_row refl refl

dasm_as-ends_example : dasm_as zeros 0 (codes ".\"abc") ≢ stuck
dasm_as-ends_example = dasm_as-ends zeros 0 (codes ".\"abc") (omega arith)

dasm_as-dasm_das_example :
    dasm_as zeros 0 (dasm_das zeros 0 0xbd 0x34 0x12).0 ≡ done 3 (0xbd ∷ 0x34 ∷ 0x12 ∷ [])
unfolding switch is_mnemonic size assembled_as
dasm_as-dasm_das_example =
    dasm_as-dasm_das zeros 0 0xbd 0x34 0x12 (omega arith) (omega arith) (omega arith) (omega arith)
      refl (record { opcode = 0xbd; instr = Instr.lda; mode = Mode.absolute_x }) refl
      (inr (omega arith))
