-- ===== src/Dasm/Tool/Examples.antt =====
-- Files for the command line tool, and its theorem at a concrete one.
use dan.Prelude.{ℕ, ◌≡◌, ◌==◌, inl, inr, if◌then◌else◌, refl, arith, true, [], ◌∷◌, codes}
use dan.Vm.Decode.{Mode, Instr, Case, switch, size}
use dan.Dasm.Table.{Entry}
use dan.Dasm.Words.{is_mnemonic, assembled_as}
use dan.Dasm.Text.{c_string}
use dan.Dasm.Find.{find_mne}
use dan.Dasm.As.{
  dasm_as, skip_whitespace, assemble, to_upper, parse_operand, get_value, emit_op, dot_items,
}
use dan.Dasm.Tool.{fgets, finished, overrun, syntax_error, as_file, das_file}
use dan.Dasm.Tool.Again.{IsKept, Holds, ends, holds, as_file-das_file}

-- Five bytes of 0 behind the table.
abbrev zeros : Entry
zeros = record { opcode = 0; mnemonic = 0 ∷ 0 ∷ 0 ∷ []; mode = Mode.implied }

-- LDA $1234,X and RTS.
abbrev file : ℕ → ℕ
file p =
    if p == 0x1a00 then 0xbd else if p == 0x1a01 then 0x34 else if p == 0x1a02 then 0x12 else 0x60

-- A blank line is a syntax error.
stops_at_blank : as_file zeros 9 0 0 (codes "rts\n\nrts\n") ≡ syntax_error 2 (0x60 ∷ [])
unfolding as_file fgets c_string dasm_as skip_whitespace assemble find_mne to_upper parse_operand
    emit_op
stops_at_blank = refl

-- Four bytes in a line are one more than `op` holds.
overruns : as_file zeros 9 0 0 (codes ".1,2,3,4\n") ≡ overrun 1 []
unfolding as_file fgets c_string dasm_as skip_whitespace dot_items get_value
overruns = refl

abbrev lda_case : Case
lda_case = record { opcode = 0xbd; instr = Instr.lda; mode = Mode.absolute_x }

abbrev rts_case : Case
rts_case = record { opcode = 0x60; instr = Instr.rts; mode = Mode.implied }

lda-IsKept : IsKept zeros file 0x1a00 lda_case
unfolding switch size assembled_as
lda-IsKept = record {
  op_byte = omega arith;
  b1_byte = omega arith;
  b2_byte = omega arith;
  known = refl;
  wide = inr (omega arith);
  same = refl;
  near = refl;
}

rts-IsKept : IsKept zeros file 0x1a03 rts_case
unfolding switch size assembled_as
rts-IsKept = record {
  op_byte = omega arith;
  b1_byte = omega arith;
  b2_byte = omega arith;
  known = refl;
  wide = inl (omega arith);
  same = refl;
  near = refl;
}

file-Holds : Holds zeros file 0x1a00 4
unfolding size
file-Holds = holds lda_case lda-IsKept (holds rts_case rts-IsKept ends)

as_file-das_file_example :
    as_file zeros 5 0x1a00 0 (das_file zeros 4 true file 0x1a00 4)
    ≡ finished (0xbd ∷ 0x34 ∷ 0x12 ∷ 0x60 ∷ [])
unfolding is_mnemonic
as_file-das_file_example =
    as_file-das_file zeros file refl 0x1a00 4 file-Holds (omega arith) (omega arith)
