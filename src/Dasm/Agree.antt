-- ===== src/Dasm/Agree.antt =====
-- The table of dasm/dasm.c against the switch of vm/vm.c.
use dan.Prelude.{
  ℕ, ◌<◌, ◌≡◌, ◌≢◌, ◌==◌, ◌&&◌, ◌||◌, Bool, true, false, refl, ap, sym, ◌∙◌, if◌then◌else◌, arith,
  List, [], ◌∷◌, ◌++◌, Option, none, some, all_below, all_below_sound, ==→eq, and_split, ◌↔◌,
}
use mathlib.Core.Bool.{xor}
use mathlib.Core.Path.{subst}
use dan.Vm.Decode.{Instr, Mode, Case, switch, size}
use dan.Dasm.Table.{Entry, vm_op_tbl}
use dan.Dasm.Find.{mode_code, same_letters, find_row, find_opcode}
use dan.Dasm.Das.{operand_text, entry_text, dasm_das}

-- The mnemonic of an instruction.
unfoldable pub letters : Instr → List ℕ
letters Instr.sys = b'S' ∷ b'Y' ∷ b'S' ∷ []
letters Instr.dex = b'D' ∷ b'E' ∷ b'X' ∷ []
letters Instr.dey = b'D' ∷ b'E' ∷ b'Y' ∷ []
letters Instr.tax = b'T' ∷ b'A' ∷ b'X' ∷ []
letters Instr.bpl = b'B' ∷ b'P' ∷ b'L' ∷ []
letters Instr.bcc = b'B' ∷ b'C' ∷ b'C' ∷ []
letters Instr.cpx = b'C' ∷ b'P' ∷ b'X' ∷ []
letters Instr.eor = b'E' ∷ b'O' ∷ b'R' ∷ []
letters Instr.tsx = b'T' ∷ b'S' ∷ b'X' ∷ []
letters Instr.dec = b'D' ∷ b'E' ∷ b'C' ∷ []
letters Instr.sta = b'S' ∷ b'T' ∷ b'A' ∷ []
letters Instr.lda = b'L' ∷ b'D' ∷ b'A' ∷ []
letters Instr.beq = b'B' ∷ b'E' ∷ b'Q' ∷ []
letters Instr.rol = b'R' ∷ b'O' ∷ b'L' ∷ []
letters Instr.sty = b'S' ∷ b'T' ∷ b'Y' ∷ []
letters Instr.jmp = b'J' ∷ b'M' ∷ b'P' ∷ []
letters Instr.bmi = b'B' ∷ b'M' ∷ b'I' ∷ []
letters Instr.rti = b'R' ∷ b'T' ∷ b'I' ∷ []
letters Instr.tay = b'T' ∷ b'A' ∷ b'Y' ∷ []
letters Instr.txa = b'T' ∷ b'X' ∷ b'A' ∷ []
letters Instr.rts = b'R' ∷ b'T' ∷ b'S' ∷ []
letters Instr.sed = b'S' ∷ b'E' ∷ b'D' ∷ []
letters Instr.lsr = b'L' ∷ b'S' ∷ b'R' ∷ []
letters Instr.jsr = b'J' ∷ b'S' ∷ b'R' ∷ []
letters Instr.ldy = b'L' ∷ b'D' ∷ b'Y' ∷ []
letters Instr.sec = b'S' ∷ b'E' ∷ b'C' ∷ []
letters Instr.bit = b'B' ∷ b'I' ∷ b'T' ∷ []
letters Instr.ldx = b'L' ∷ b'D' ∷ b'X' ∷ []
letters Instr.txs = b'T' ∷ b'X' ∷ b'S' ∷ []
letters Instr.sei = b'S' ∷ b'E' ∷ b'I' ∷ []
letters Instr.asl = b'A' ∷ b'S' ∷ b'L' ∷ []
letters Instr.bvs = b'B' ∷ b'V' ∷ b'S' ∷ []
letters Instr.cpy = b'C' ∷ b'P' ∷ b'Y' ∷ []
letters Instr.cli = b'C' ∷ b'L' ∷ b'I' ∷ []
letters Instr.cld = b'C' ∷ b'L' ∷ b'D' ∷ []
letters Instr.clc = b'C' ∷ b'L' ∷ b'C' ∷ []
letters Instr.bcs = b'B' ∷ b'C' ∷ b'S' ∷ []
letters Instr.adc = b'A' ∷ b'D' ∷ b'C' ∷ []
letters Instr.clv = b'C' ∷ b'L' ∷ b'V' ∷ []
letters Instr.stx = b'S' ∷ b'T' ∷ b'X' ∷ []
letters Instr.ror = b'R' ∷ b'O' ∷ b'R' ∷ []
letters Instr.bne = b'B' ∷ b'N' ∷ b'E' ∷ []
letters Instr.and = b'A' ∷ b'N' ∷ b'D' ∷ []
letters Instr.inx = b'I' ∷ b'N' ∷ b'X' ∷ []
letters Instr.iny = b'I' ∷ b'N' ∷ b'Y' ∷ []
letters Instr.plp = b'P' ∷ b'L' ∷ b'P' ∷ []
letters Instr.pha = b'P' ∷ b'H' ∷ b'A' ∷ []
letters Instr.cmp = b'C' ∷ b'M' ∷ b'P' ∷ []
letters Instr.tya = b'T' ∷ b'Y' ∷ b'A' ∷ []
letters Instr.bvc = b'B' ∷ b'V' ∷ b'C' ∷ []
letters Instr.sbc = b'S' ∷ b'B' ∷ b'C' ∷ []
letters Instr.brk = b'B' ∷ b'R' ∷ b'K' ∷ []
letters Instr.pla = b'P' ∷ b'L' ∷ b'A' ∷ []
letters Instr.php = b'P' ∷ b'H' ∷ b'P' ∷ []
letters Instr.nop = b'N' ∷ b'O' ∷ b'P' ∷ []
letters Instr.inc = b'I' ∷ b'N' ∷ b'C' ∷ []
letters Instr.ora = b'O' ∷ b'R' ∷ b'A' ∷ []

-- The seven rows that name another instruction or another addressing than the machine executes:
-- six say "zero page, X" for "(zero page, X)", and 0x3d says ORA for AND.
unfoldable pub is_misprinted : ℕ → Bool
is_misprinted op =
    op == 0x01
    || (op == 0x21 || (op == 0x61 || (op == 0xa1 || (op == 0xc1 || (op == 0xe1 || op == 0x3d)))))

-- What the table has for an opcode, without the row behind its end.
unfoldable pub table_row : ℕ → Option Entry
table_row op = find_row (λ e. e.opcode == op) vm_op_tbl

-- The row says what the machine does.
unfoldable pub row_agrees : Entry → Case → Bool
row_agrees e c = same_letters e.mnemonic (letters c.instr) && mode_code e.mode == mode_code c.mode

-- The row and the case for an opcode go together.
abbrev pub agreement_of : ℕ → Option Entry → Option Case → Bool
agreement_of op none none = true
agreement_of op none (some _) = false
agreement_of op (some _) none = false
agreement_of op (some e) (some c) =
    xor (row_agrees e c) (is_misprinted op) && size e.mode == size c.mode

agreement_table : all_below (λ op. agreement_of op (table_row op) (switch op)) 256 ≡ true
unfolding all_below table_row find_row vm_op_tbl switch row_agrees letters mode_code same_letters
    is_misprinted size xor
agreement_table = refl

pub find_row-append :
    (p : Entry → Bool) (es : List Entry) (b : Entry)
    → find_row p (es ++ b ∷ []) ≡ elim (find_row p es) as (λ _. Option Entry) [
      | none ↦ if p b then some b else none
      | some e ↦ some e
    ]
unfolding find_row
find_row-append p [] b = refl
find_row-append p (e ∷ es) b = ground (arith, find_row-append p es b)

-- The search of `dasm_das` finds the row of the table, and else the row behind it if that happens
-- to have the opcode.
pub find_opcode_lem :
    (beyond : Entry) (op : ℕ)
    → find_opcode beyond op ≡ elim (table_row op) as (λ _. Option Entry) [
      | none ↦ if beyond.opcode == op then some beyond else none
      | some e ↦ some e
    ]
unfolding find_opcode table_row
find_opcode_lem beyond op = find_row-append (λ e. e.opcode == op) vm_op_tbl beyond

-- What the table check gives for an opcode with a case.
pub row_of_case :
    (op : ℕ) (r : Option Entry) (c : Case)
    → agreement_of op r (some c) ≡ true
    → (e : Entry) × (r ≡ some e)
      × (size e.mode ≡ size c.mode)
      × (xor (row_agrees e c) (is_misprinted op) ≡ true)
row_of_case op none c h = cc
row_of_case op (some e) c h =
    let (a, b) = and_split (xor (row_agrees e c) (is_misprinted op)) _ h in
    (e, refl, ==→eq _ _ b, a)

found_entry :
    (beyond : Entry) (op : ℕ) (r : Option Entry) (c : Case) (e : Entry)
    → agreement_of op r (some c) ≡ true
    → (elim r as (λ _. Option Entry) [
      | none ↦ if beyond.opcode == op then some beyond else none
      | some e ↦ some e
    ])
      ≡ some e
    → xor (row_agrees e c) (is_misprinted op) ≡ true
found_entry beyond op none c e h k = cc
found_entry beyond op (some e') c e h k =
    let same : e' ≡ e = cc in
    subst (λ x. xor (row_agrees x c) (is_misprinted op) ≡ true) same
      (and_split (xor (row_agrees e' c) (is_misprinted op)) _ h).0

no_row : (op : ℕ) (r : Option Entry) → agreement_of op r none ≡ true → r ≡ none
no_row op none h = refl
no_row op (some e) h = cc

mode_code-injective : (m n : Mode) → mode_code m ≡ mode_code n → m ≡ n
unfolding mode_code
mode_code-injective m n h = ground arith

pub operand_text-size : (m : Mode) (addr b1 b2 : ℕ) → (operand_text m addr b1 b2).1 ≡ size m
unfolding operand_text size
operand_text-size Mode.implied addr b1 b2 = refl
operand_text-size _ addr b1 b2 = refl

entry_text-size : (e : Entry) (addr b1 b2 : ℕ) → (entry_text e addr b1 b2).1 ≡ size e.mode
unfolding entry_text
entry_text-size e addr b1 b2 = operand_text-size e.mode addr b1 b2

module _ (beyond : Entry) (op : ℕ) (byte_op : op < 256) where
  pub agrees : agreement_of op (table_row op) (switch op) ≡ true
  agrees =
      all_below_sound (λ n. agreement_of n (table_row n) (switch n)) 256 agreement_table op byte_op

  -- An opcode on which the machine halts has no row, so the disassembler prints question marks and
  -- takes one byte, unless the five bytes behind the table happen to begin with the opcode.
  pub halt-unknown :
      (addr b1 b2 : ℕ)
      → switch op ≡ none
      → beyond.opcode ≢ op
      → dasm_das beyond addr op b1 b2 ≡ (b'?' ∷ b'?' ∷ b'?' ∷ [], 1)
  unfolding dasm_das
  halt-unknown addr b1 b2 halts other =
      let missing = no_row op (table_row op) (rw halts at agrees) in
      rw (find_opcode_lem beyond op, missing, dasm_das) (ground arith)

  -- On an opcode that the machine executes, the disassembler finds a row of the table, and reports
  -- the length that the machine takes.
  pub dasm_das-size :
      (addr b1 b2 : ℕ) (c : Case)
      → switch op ≡ some c
      → (dasm_das beyond addr op b1 b2).1 ≡ size c.mode
  unfolding dasm_das
  dasm_das-size addr b1 b2 c known =
      let (e, found, same, _) = row_of_case op (table_row op) c (rw known at agrees) in
      rw (find_opcode_lem beyond op, found, dasm_das) (entry_text-size e addr b1 b2 ∙ same)

  entry_of_case :
      (c : Case) (e : Entry)
      → switch op ≡ some c
      → find_opcode beyond op ≡ some e
      → xor (row_agrees e c) (is_misprinted op) ≡ true
  entry_of_case c e known found =
      found_entry beyond op (table_row op) c e (rw known at agrees)
        (sym (find_opcode_lem beyond op) ∙ found)

  -- The row for an opcode names the instruction and the addressing that the machine executes, but
  -- for seven opcodes.
  pub misprinted_iff :
      (c : Case) (e : Entry)
      → switch op ≡ some c
      → find_opcode beyond op ≡ some e
      → ((same_letters e.mnemonic (letters c.instr) ≡ true) × (e.mode ≡ c.mode))
        ↔ (is_misprinted op ≡ false)
  unfolding xor
  misprinted_iff c e known found =
      let fits = entry_of_case c e known found in
      (
        λ h. ground (arith, fits, h.0, ap mode_code h.1, unfolded),
        λ h. (
          ground (arith, fits, h, unfolded),
          mode_code-injective e.mode c.mode (ground (arith, fits, h, unfolded)),
        ),
      )
    where
      unfolded :
          row_agrees e c
          ≡ (same_letters e.mnemonic (letters c.instr) && mode_code e.mode == mode_code c.mode)
      unfolded = unfold row_agrees in refl
