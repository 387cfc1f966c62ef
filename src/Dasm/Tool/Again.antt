-- ===== src/Dasm/Tool/Again.antt =====
-- What the disassembler prints in its short format, given to the assembler.
use dan.Prelude.{
  Bool, leb, ℕ, zero, suc, ◌+◌, ◌-◌, ◌<◌, ◌≤◌, ◌≡◌, ◌≢◌, ◌⊎◌, ◌&&◌, ltb, if◌then◌else◌, u16, true,
  false, refl, ap, ap₂, ◌∙◌, arith, some, List, [], ◌∷◌, ◌++◌, length,
}
use mathlib.Core.List.{append_assoc}
use dan.Vm.Decode.{Mode, Case, switch, size}
use dan.Dasm.Table.{Entry}
use dan.Dasm.Text.{c_string, is_space, skip_while}
use dan.Dasm.As.{done, dasm_as, skip_whitespace}
use dan.Dasm.Das.{dasm_das}
use dan.Dasm.Words.{is_mnemonic, assembled_as}
use dan.Dasm.Roundtrip.{code, dasm_as-line}
use dan.Dasm.Agree.{dasm_das-size}
use dan.Dasm.Printed.{is_plain, dasm_das-plain}
use dan.Dasm.Tool.{fgets, finished, wrote, first, as_file, das_line, das_file}
use dan.Editor.Cells.{cells}
use dan.Dasm.Tool.Lines.{
  fgets-line, c_string-append, c_string-plain, cells-append, two_cells, three_cells, first-code,
}

-- The target of a branch has sixteen bits: the tool prints another one in the 32 bits of its `int`.
abbrev pub is_near : Mode → ℕ → ℕ → Bool
is_near Mode.relative addr b1 = if ltb b1 128 then ltb (addr + b1) 65535 else leb 255 (addr + b1)
is_near _ addr b1 = true

module _ (beyond : Entry) (ram : ℕ → ℕ) where
  -- The instruction at an address, which `dasm_as` gives back.
  pub record IsKept (addr : ℕ) (c : Case) : Type 0 where
    pub op_byte : ram addr < 256
    pub b1_byte : ram (u16 (addr + 1)) < 256
    pub b2_byte : ram (u16 (addr + 2)) < 256
    pub known : switch (ram addr) ≡ some c
    pub wide : (size c.mode ≤ 2) ⊎ (ram (u16 (addr + 2)) ≢ 0)
    pub same : assembled_as (ram addr) ≡ ram addr
    pub near : is_near c.mode addr (ram (u16 (addr + 1))) ≡ true

  -- So many bytes from an address on are whole instructions of that kind.
  pub data Holds : ℕ → ℕ → Type 0 where
    ends : {addr : ℕ} → Holds addr 0
    holds :
        {addr len : ℕ} (c : Case)
        → IsKept addr c
        → Holds (addr + size c.mode) len
        → Holds addr (size c.mode + len)

  code-cells :
      (m : Mode) (addr : ℕ)
      → addr + size m ≤ 65535
      → code (ram addr) (ram (u16 (addr + 1))) (ram (u16 (addr + 2))) (size m)
        ≡ cells ram addr (size m)
  unfolding size
  code-cells Mode.implied addr h = refl
  code-cells Mode.accumulator addr h = refl
  code-cells Mode.absolute addr h = three_cells ram addr h
  code-cells Mode.absolute_x addr h = three_cells ram addr h
  code-cells Mode.absolute_y addr h = three_cells ram addr h
  code-cells Mode.ind_abs addr h = three_cells ram addr h
  code-cells _ addr h = two_cells ram addr h

  abbrev shown : ℕ → List ℕ × ℕ
  shown addr = dasm_das beyond addr (ram addr) (ram (u16 (addr + 1))) (ram (u16 (addr + 2)))

  two_blanks : (addr : ℕ) (s : List ℕ) → dasm_as beyond addr (32 ∷ 32 ∷ s) ≡ dasm_as beyond addr s
  unfolding dasm_as skip_whitespace skip_while is_space
  two_blanks addr s = refl

  line_done :
      (addr : ℕ) (c : Case)
      → addr < 65536
      → is_mnemonic beyond.mnemonic ≡ false
      → IsKept addr c
      → dasm_as beyond addr (c_string (32 ∷ 32 ∷ ((shown addr).0 ++ 10 ∷ [])))
        ≡ done
            (size c.mode)
            (code (ram addr) (ram (u16 (addr + 1))) (ram (u16 (addr + 2))) (size c.mode))
  unfolding c_string
  line_done addr c small stray k =
      let (plain, _, _) =
        dasm_das-plain beyond addr (ram addr) (ram (u16 (addr + 1))) (ram (u16 (addr + 2))) c
          k.op_byte k.known in
      ap (λ (s : List ℕ). dasm_as beyond addr (32 ∷ 32 ∷ s))
        (c_string-append (shown addr).0 (10 ∷ []) plain)
      ∙ two_blanks addr ((shown addr).0 ++ 10 ∷ [])
      ∙ dasm_as-line beyond addr (ram addr) (ram (u16 (addr + 1))) (ram (u16 (addr + 2))) small
          k.op_byte k.b1_byte k.b2_byte stray true c k.known k.wide
      ∙ ap
          (λ (op : ℕ).
            done (size c.mode)
              (code op (ram (u16 (addr + 1))) (ram (u16 (addr + 2))) (size c.mode)))
          k.same

  -- What the disassembler prints behind a line.
  abbrev behind : ℕ → ℕ → ℕ → List ℕ
  behind fuel addr len =
      if ltb addr 0xffff && ltb 0 len then das_file beyond fuel true ram addr len else []

  das_step :
      (fuel addr len n : ℕ) (out : List ℕ)
      → shown addr ≡ (out, n)
      → das_file beyond (suc fuel) true ram addr len
        ≡ 32 ∷ 32 ∷ (c_string out ++ 10 ∷ behind fuel (u16 (addr + n)) (u16 (len + 65536 - n)))
  unfolding das_file das_line
  das_step fuel addr len n out e = rw e (
      ap (λ (s : List ℕ). 32 ∷ 32 ∷ s)
        (append_assoc (c_string out) (10 ∷ [])
          (behind fuel (u16 (addr + n)) (u16 (len + 65536 - n)))))

  as_step :
      (k addr count n : ℕ) (input line rest op : List ℕ)
      → fgets 31 (32 ∷ input) ≡ (line, rest)
      → dasm_as beyond addr (c_string line) ≡ done n op
      → ltb 3 (length op) ≡ false
      → as_file beyond (suc k) addr count (32 ∷ input)
        ≡ wrote (first n op) (as_file beyond k (u16 (addr + n)) (u16 (count + 1)) rest)
  unfolding as_file
  as_step k addr count n input line rest op h1 h2 h3 =
      rw (as_file, h1)
        (rw h2 (
          rw h3 (
            ap
              (λ (t : List ℕ × List ℕ).
                wrote (first n op) (as_file beyond k (u16 (addr + n)) (u16 (count + 1)) t.1))
              h1)))

  module _ (stray : is_mnemonic beyond.mnemonic ≡ false) where
    behind-again :
        (fuel k addr count len : ℕ)
        → Holds addr len
        → addr + len ≤ 65535
        → len ≤ fuel
        → len < k
        → as_file beyond k addr count (behind fuel addr len) ≡ finished (cells ram addr len)
    behind-again fuel zero addr count len code h1 h2 h3 = ground (arith, h3)
    behind-again fuel (suc k) addr count len ends h1 h2 h3 =
        let nothing : (ltb addr 0xffff && ltb 0 0) ≡ false = ground arith in
        rw nothing (unfold as_file in refl)
    behind-again zero (suc k) addr count len (holds c kept more) h1 h2 h3 =
        let (_, _, some_bytes) = first-code c.mode 0 0 0 in ground (arith, some_bytes, h2)
    behind-again (suc fuel) (suc k) addr count len (holds {len = rest} c kept more) h1 h2 h3 =
        let (all, fits, some_bytes) =
          first-code c.mode (ram addr) (ram (u16 (addr + 1))) (ram (u16 (addr + 2))) in
        let on : (ltb addr 0xffff && ltb 0 (size c.mode + rest)) ≡ true =
          ground (arith, some_bytes, h1) in
        let there : u16 (addr + size c.mode) ≡ addr + size c.mode = omega (arith, h1) in
        let left : u16 (size c.mode + rest + 65536 - size c.mode) ≡ rest = omega (arith, h1) in
        let (plain, _, short) =
          dasm_das-plain beyond addr (ram addr) (ram (u16 (addr + 1))) (ram (u16 (addr + 2))) c
            kept.op_byte kept.known in
        let printed : shown addr ≡ ((shown addr).0, size c.mode) =
          ap (λ (n : ℕ). ((shown addr).0, n))
            (dasm_das-size beyond (ram addr) kept.op_byte addr (ram (u16 (addr + 1)))
              (ram (u16 (addr + 2))) c kept.known) in
        let more_lines = behind fuel (addr + size c.mode) rest in
        let text = (shown addr).0 in
        let bytes = code (ram addr) (ram (u16 (addr + 1))) (ram (u16 (addr + 2))) (size c.mode) in
        let lines : behind (suc fuel) addr (size c.mode + rest)
            ≡ 32 ∷ 32 ∷ (text ++ 10 ∷ more_lines) =
          rw on (
            das_step fuel addr (size c.mode + rest) (size c.mode) text printed
            ∙ ap₂ (λ (a l : ℕ). 32 ∷ 32 ∷ (c_string text ++ 10 ∷ behind fuel a l)) there left
            ∙ ap (λ (s : List ℕ). 32 ∷ 32 ∷ (s ++ 10 ∷ more_lines)) (c_string-plain text plain)) in
        ap (as_file beyond (suc k) addr count) lines
        ∙ as_step k addr count (size c.mode) (32 ∷ (text ++ 10 ∷ more_lines))
            (32 ∷ 32 ∷ (text ++ 10 ∷ [])) more_lines bytes
            (fgets-line 31 (32 ∷ 32 ∷ text) more_lines (unfold is_plain in plain)
              (omega (arith, short)))
            (line_done addr c (omega (arith, h1)) stray kept) fits
        ∙ ap₂ wrote all (
            ap (λ (a : ℕ). as_file beyond k a (u16 (count + 1)) more_lines) there
            ∙ behind-again fuel k (addr + size c.mode) (u16 (count + 1)) rest more
                (omega (arith, h1)) (omega (arith, h2, some_bytes)) (omega (arith, h3, some_bytes)))
        ∙ ap (λ (bs : List ℕ). finished bs)
            (ap (λ (bs : List ℕ). bs ++ cells ram (addr + size c.mode) rest)
                (code-cells c.mode addr (omega (arith, h1)))
              ∙ cells-append ram (size c.mode) addr rest)

    -- A file of whole instructions that the machine executes, each without a shadowed opcode, with
    -- a high byte other than 0 in an operand of two bytes and a branch within sixteen bits, loaded below the last address: the
    -- assembler turns what the disassembler prints of it in its short format into the same bytes,
    -- for as many rounds as the file has bytes and one. What stands behind the table does not begin
    -- with three letters.
    pub as_file-das_file :
        (addr len : ℕ)
        → Holds addr len
        → 1 ≤ len
        → addr + len ≤ 65535
        → as_file beyond (len + 1) addr 0 (das_file beyond len true ram addr len)
          ≡ finished (cells ram addr len)
    as_file-das_file addr len code some_bytes h =
        let on : (ltb addr 0xffff && ltb 0 len) ≡ true = ground (arith, some_bytes, h) in
        let lines : das_file beyond len true ram addr len ≡ behind len addr len = rw on refl in
        ap (as_file beyond (len + 1) addr 0) lines
        ∙ behind-again len (len + 1) addr 0 len code h (omega arith) (omega arith)
