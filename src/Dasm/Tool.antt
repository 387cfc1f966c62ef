-- ===== src/Dasm/Tool.antt =====
-- The loops of dasm/tools/dasm.c, the command line assembler and disassembler. The tool has an `int`
-- of 32 bits, in which a branch out of the 64 KB is printed with another number of digits than here.
pub mod Lines
pub mod Again
mod Examples
use dan.Prelude.{
  ℕ, zero, suc, ◌+◌, ◌-◌, ◌==◌, ◌&&◌, ltb, if◌then◌else◌, u16, Bool, List, [], ◌∷◌, ◌++◌, length,
}
use dan.Dasm.Table.{Entry}
use dan.Dasm.Text.{hex2, hex4, c_string}
use dan.Dasm.As.{Assembled, error, stuck, done, dasm_as}
use dan.Dasm.Das.{dasm_das}

-- `fgets` with room for so many characters: the line with its new line, and the rest of the file.
unfoldable pub fgets : ℕ → List ℕ → List ℕ × List ℕ
fgets zero cs = ([], cs)
fgets (suc n) [] = ([], [])
fgets (suc n) (c ∷ cs) =
    let (line, rest) = fgets n cs in if c == 10 then (10 ∷ [], cs) else (c ∷ line, rest)

-- What the assembler writes, and how it ends: at the end of the file, at a syntax error in a line,
-- or with a line of more bytes than `op` has, which C leaves undefined. `unread` says that the
-- rounds of the model ran out.
pub data Output : Type 0 where
  finished : List ℕ → Output
  syntax_error overrun : ℕ → List ℕ → Output
  unread : Output

-- `fwrite` in front of what follows.
abbrev pub wrote : List ℕ → Output → Output
wrote bytes (finished out) = finished (bytes ++ out)
wrote bytes (syntax_error line out) = syntax_error line (bytes ++ out)
wrote bytes (overrun line out) = overrun line (bytes ++ out)
wrote bytes unread = unread

-- The first bytes of `op`.
abbrev pub first : ℕ → List ℕ → List ℕ
first zero bs = []
first (suc n) [] = []
first (suc n) (b ∷ bs) = b ∷ first n bs

-- The two spaces for a byte that the instruction does not have.
abbrev pub op_byte : ℕ → ℕ → ℕ → List ℕ
op_byte i len op = if ltb i len then hex2 op else 32 ∷ 32 ∷ []

module _ (beyond : Entry) where
  -- The loop of the assembler, with the lines read so far.
  unfoldable pub as_file : ℕ → ℕ → ℕ → List ℕ → Output
  as_file zero addr len input = unread
  as_file (suc fuel) addr len [] = finished []
  as_file (suc fuel) addr len (c ∷ cs) =
      let (line, rest) = fgets 31 (c ∷ cs) in
      elim (dasm_as beyond addr (c_string line)) [
        | error ↦ syntax_error (u16 (len + 1)) []
        | stuck ↦ unread
        | done op_len op ↦
            let next = as_file fuel (u16 (addr + op_len)) (u16 (len + 1)) rest in
            if ltb 3 (length op) then overrun (u16 (len + 1)) [] else wrote (first op_len op) next
      ]

  -- A line of the disassembler, in the short format or not.
  unfoldable pub das_line : Bool → ℕ → ℕ → ℕ → ℕ → List ℕ × ℕ → List ℕ
  das_line shortf addr op b1 b2 (out, op_len) =
      let text = 32 ∷ 32 ∷ (c_string out ++ 10 ∷ []) in
      if shortf
      then text
      else 32
        ∷ (hex4 addr
            ++ b':'
              ∷ 32
              ∷ 32
              ∷ (op_byte 0 op_len op ++ (op_byte 1 op_len b1 ++ (op_byte 2 op_len b2 ++ text))))

  -- The loop of the disassembler over `ram`, with the bytes that are left in a `uint16_t`.
  unfoldable pub das_file : ℕ → Bool → (ℕ → ℕ) → ℕ → ℕ → List ℕ
  das_file zero shortf ram addr len = []
  das_file (suc fuel) shortf ram addr len =
      let b1 = ram (u16 (addr + 1)) in
      let b2 = ram (u16 (addr + 2)) in
      let (out, op_len) = dasm_das beyond addr (ram addr) b1 b2 in
      let addr' = u16 (addr + op_len) in
      let len' = u16 (len + 65536 - op_len) in
      let rest = das_file fuel shortf ram addr' len' in
      das_line shortf addr (ram addr) b1 b2 (out, op_len)
      ++ (if ltb addr' 0xffff && ltb 0 len' then rest else [])
