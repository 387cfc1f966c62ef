-- ===== src/Dasm/Das.antt =====
-- `dasm_das` of dasm/dasm.c: the text of one instruction, and how many bytes it takes.
use dan.Prelude.{ℕ, ◌+◌, ltb, if◌then◌else◌, List, [], ◌∷◌, ◌++◌, none, some, u16}
use dan.Vm.Flags.{addr16}
use dan.Vm.Decode.{Mode}
use dan.Dasm.Table.{Entry}
use dan.Dasm.Find.{find_opcode}
use dan.Dasm.Text.{hex2, hex4}

-- The switch on the addressing type. `addr + 1 + (int8_t)op[1]` is computed in sixteen bits.
unfoldable pub operand_text : Mode → ℕ → ℕ → ℕ → List ℕ × ℕ
unfolding hex2 hex4 addr16
operand_text Mode.implied addr b1 b2 = ([], 1)
operand_text Mode.absolute addr b1 b2 = (b'$' ∷ hex4 (addr16 b1 b2), 3)
operand_text Mode.immediate addr b1 b2 = (b'#' ∷ b'$' ∷ hex2 b1, 2)
operand_text Mode.zero_page addr b1 b2 = (b'$' ∷ hex2 b1, 2)
operand_text Mode.ind_abs addr b1 b2 = (b'(' ∷ b'$' ∷ (hex4 (addr16 b1 b2) ++ b')' ∷ []), 3)
operand_text Mode.absolute_x addr b1 b2 = (b'$' ∷ (hex4 (addr16 b1 b2) ++ b',' ∷ b'X' ∷ []), 3)
operand_text Mode.absolute_y addr b1 b2 = (b'$' ∷ (hex4 (addr16 b1 b2) ++ b',' ∷ b'Y' ∷ []), 3)
operand_text Mode.zero_page_x addr b1 b2 = (b'$' ∷ (hex2 b1 ++ b',' ∷ b'X' ∷ []), 2)
operand_text Mode.zero_page_y addr b1 b2 = (b'$' ∷ (hex2 b1 ++ b',' ∷ b'Y' ∷ []), 2)
operand_text Mode.index_ind addr b1 b2 = (b'(' ∷ b'$' ∷ (hex2 b1 ++ b',' ∷ b'X' ∷ b')' ∷ []), 2)
operand_text Mode.ind_index addr b1 b2 = (b'(' ∷ b'$' ∷ (hex2 b1 ++ b')' ∷ b',' ∷ b'Y' ∷ []), 2)
operand_text Mode.relative addr b1 b2 =
    (b'$' ∷ hex4 (u16 (addr + 1 + (if ltb b1 128 then b1 else b1 + 65280))), 2)
operand_text Mode.accumulator addr b1 b2 = (b'A' ∷ [], 1)

-- The mnemonic, a space before an operand, the operand.
unfoldable pub entry_text : Entry → ℕ → ℕ → ℕ → List ℕ × ℕ
unfolding operand_text
entry_text e addr b1 b2 =
    let (text, len) = operand_text e.mode addr b1 b2 in
    (e.mnemonic ++ (elim e.mode [ Mode.implied ↦ [] | _ ↦ b' ' ∷ text ]), len)

-- The operation on the bytes `op[0]`, `op[1]`, `op[2]`.
unfoldable pub dasm_das : Entry → ℕ → ℕ → ℕ → ℕ → List ℕ × ℕ
dasm_das beyond addr op b1 b2 = elim (find_opcode beyond op) [
  | none ↦ (b'?' ∷ b'?' ∷ b'?' ∷ [], 1)
  | some e ↦ entry_text e addr b1 b2
]
