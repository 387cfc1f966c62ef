-- ===== src/System/Commands/Again.antt =====
-- `as` with the text that `list` prints.
use dan.Prelude.{
  ℕ, ◌+◌, ◌<◌, ◌≤◌, ◌≡◌, ◌≢◌, ◌⊎◌, ◌==◌, ltb, refl, ap, ◌∙◌, sym, arith, u16, true, false, Option,
  none, some, List, [], ◌∷◌, ◌++◌, length, codes,
}
use dan.Vm.Bus.{Bus}
use dan.Vm.Decode.{Mode, Case, switch, size}
use dan.Dasm.Table.{Entry}
use dan.Dasm.As.{done, dasm_as}
use dan.Dasm.Das.{dasm_das}
use dan.Dasm.Text.{hex4, skip_while}
use dan.Dasm.Words.{is_mnemonic, assembled_as}
use dan.Dasm.Roundtrip.{code, dasm_as-dasm_das}
use dan.Dasm.Printed.{dasm_das-plain}
use dan.Editor.{Editor, buffered_input, store}
use dan.Editor.Cells.{cells}
use dan.Editor.Input.{returned, zstring, buffered_input-line}
use dan.System.{Machine, say, print}
use dan.System.Commands.{chars, text_at, get_param, number_at}
use dan.System.Commands.Code.{put_op, upper_line, as_stored, as_typed, as_line, cmd_as}
use dan.System.Commands.Typed.{line-plain, chars-plain}

put_op-code :
    (m : Mode) (op b1 b2 : ℕ) (buffer : ℕ → ℕ)
    → cells (put_op (code op b1 b2 (size m)) buffer) 64 (size m) ≡ code op b1 b2 (size m)
unfolding size
put_op-code Mode.implied op b1 b2 buffer = refl
put_op-code _ op b1 b2 buffer = refl

size_pos : (m : Mode) → ltb 0 (size m) ≡ true
unfolding size
size_pos Mode.implied = refl
size_pos _ = refl

module _ {D : Type 0} (sram : Bus D) (font : ℕ → ℕ) (beyond : Entry) where
  -- Bytes are stored at the address, `Ok` is reported, the keys are left, and the address has moved
  -- on by their number.
  abbrev pub Assembles : ℕ → ℕ → List ℕ → List ℕ → Option (ℕ × Machine D) → Type 0
  Assembles addr n bytes keys r =
      (m : Machine D) × (r
        ≡ some (
          u16 (addr + n),
          say sram font (codes "Ok\n") (codes "Ok\n") (record m {
            console = record m.console { sram = sram.ram_write m.console.sram addr bytes };
          }),
        ))
      × (m.keys ≡ keys)

  as_stored-Assembles :
      (addr op b1 b2 : ℕ) (mode : Mode) (m : Machine D)
      → Assembles addr
          (size mode)
          (code op b1 b2 (size mode))
          m.keys
          (as_stored sram font beyond addr m (done (size mode) (code op b1 b2 (size mode))))
  unfolding as_stored
  as_stored-Assembles addr op b1 b2 mode m = (
    record m { buffer = put_op (code op b1 b2 (size mode)) m.buffer },
    rw (size_pos mode, put_op-code mode op b1 b2 m.buffer) refl,
    refl,
  )

  module _ (addr op b1 b2 : ℕ) (small : addr < 65536) (byte_op : op < 256) (h1 : b1 < 256)
      (h2 : b2 < 256) (stray : is_mnemonic beyond.mnemonic ≡ false) (c : Case)
      (known : switch op ≡ some c) (wide : (size c.mode ≤ 2) ⊎ (b2 ≢ 0)) where
    abbrev text : List ℕ
    text = (dasm_das beyond addr op b1 b2).0

    as_typed-Assembles :
        (m : Machine D) (r : Option (ℕ × Editor D × List ℕ)) (keys : List ℕ)
        → returned r ≡ some (length text, text ++ 0 ∷ [], keys)
        → Assembles addr
            (size c.mode)
            (code (assembled_as op) b1 b2 (size c.mode))
            keys
            (as_typed sram font beyond addr m r)
    unfolding as_typed
    as_typed-Assembles m none keys h = absurd cc
    as_typed-Assembles m (some (n, e, ks)) keys h =
        let (plain, long, short) = dasm_das-plain beyond addr op b1 b2 c byte_op known in
        let n_chars : n ≡ length text = cc in
        let left : ks ≡ keys = cc in
        let held : cells e.buffer 0 (n + 1) ≡ text ++ 0 ∷ [] = cc in
        let some_chars : (n == 0) ≡ false = ground (arith, n_chars, long) in
        let string : text_at e.buffer 0 ≡ text =
          chars-plain 128 0 e.buffer text plain (omega (arith, short))
            (ap (λ (k : ℕ). cells e.buffer 0 (k + 1)) (sym n_chars) ∙ held) in
        let line_done =
          ap (dasm_as beyond addr) string
          ∙ dasm_as-dasm_das beyond addr op b1 b2 small byte_op h1 h2 stray c known wide in
        let m' = record m {
          console = e.console;
          buffer = upper_line (text_at e.buffer 0) e.buffer;
          keys = ks;
        } in
        let (m'', result, kept) = as_stored-Assembles addr (assembled_as op) b1 b2 c.mode m' in
        (m'', rw (some_chars, line_done) result, kept ∙ left)

    -- The command `as` without a parameter, when the text that `list` prints for an instruction at the
    -- address that it keeps and a new line are typed, stores the instruction there again and moves the
    -- address on by its length. The opcode stored is the one of the first row of the table with the
    -- same letters and addressing, which is another one for seven opcodes; the bytes behind it are
    -- the same. An operand of two bytes has a high byte other than 0, and what stands behind the
    -- table does not begin with three letters.
    pub cmd_as-dasm_das :
        (keys : List ℕ) (m : Machine D)
        → m.buffer 2 ≡ 0
        → m.keys ≡ text ++ 0x0a ∷ keys
        → Assembles addr
            (size c.mode)
            (code (assembled_as op) b1 b2 (size c.mode))
            keys
            (cmd_as sram font beyond addr m)
    unfolding cmd_as as_line chars get_param number_at skip_while
    cmd_as-dasm_das keys m bare typed =
        let m' =
          print sram font (32 ∷ (hex4 addr ++ b':' ∷ 32 ∷ []))
            (record m { buffer = store m.buffer 0 0 }) in
        let (plain, long, short) = dasm_das-plain beyond addr op b1 b2 c byte_op known in
        let line : returned (buffered_input sram font m'.buffer 32 m.keys m'.console)
            ≡ some (length text, text ++ 0 ∷ [], keys) =
          ap (λ (ks : List ℕ). returned (buffered_input sram font m'.buffer 32 ks m'.console)) typed
          ∙ buffered_input-line sram font m'.buffer 32 (text ++ 0x0a ∷ keys) m'.console
              (omega arith) (omega arith)
          ∙ ap zstring (line-plain 32 text [] keys plain (omega (arith, short))) in
        rw bare (as_typed-Assembles m' _ keys line)
