-- ===== src/System/Commands/Code.antt =====
-- The commands `list` and `as` of init/main.c.
use dan.Prelude.{
  ℕ, zero, suc, ◌+◌, ◌-◌, ◌==◌, ◌&&◌, ◌||◌, ltb, leb, if◌then◌else◌, u16, Option, none, some, List,
  [], ◌∷◌, ◌++◌, byte, length, codes,
}
use dan.Vm.Bus.{Bus}
use dan.Dasm.Table.{Entry}
use dan.Dasm.Text.{hex2, hex4, c_string}
use dan.Dasm.As.{Assembled, error, stuck, done, dasm_as, to_upper, skip_whitespace, char_at}
use dan.Dasm.Das.{dasm_das}
use dan.Editor.{Editor, buffered_input, store}
use dan.Editor.Cells.{cells}
use dan.System.{Machine, say, print}
use dan.System.Commands.{with_param, text_at, get_param, ends, cmd_err, addr_err}

-- `i < op_len`, for a byte of the instruction.
abbrev pub op_text : ℕ → ℕ → ℕ → List ℕ
op_text i len op = if ltb i len then hex2 op else 32 ∷ 32 ∷ []

-- Bytes stored at `buffer + 64`.
abbrev pub put_op : List ℕ → (ℕ → ℕ) → ℕ → ℕ
put_op out buffer p = if leb 64 p && ltb p (64 + length out) then byte out (p - 64) else buffer p

-- `dasm_as` turns a line of three characters at least, without the `.`, into upper case.
abbrev pub upper_line : List ℕ → (ℕ → ℕ) → ℕ → ℕ
upper_line s buffer p =
    if char_at (skip_whitespace s) == b'.' || ltb (length (skip_whitespace s)) 3
    then buffer p
    else if ltb p (length s)
    then to_upper (buffer p)
    else buffer p

module _ {D : Type 0} (sram : Bus D) (font : ℕ → ℕ) (beyond : Entry) where
  -- The rows of `cmd_list`, with the rounds left. The address is printed before the memory is read.
  unfoldable pub list_rows : ℕ → ℕ → Machine D → ℕ × Machine D
  unfolding c_string
  list_rows zero addr m = (addr, m)
  list_rows (suc n) addr m =
      let m' = print sram font (32 ∷ (hex4 addr ++ b':' ∷ 32 ∷ [])) m in
      let op = byte (sram.ram_read m'.console.sram addr 3) in
      let (out, op_len) = dasm_das beyond addr (op 0) (op 1) (op 2) in
      let bytes = op_text 0 op_len (op 0) ++ (op_text 1 op_len (op 1) ++ op_text 2 op_len (op 2)) in
      list_rows n (u16 (addr + op_len))
        (print sram font (32 ∷ 32 ∷ 32 ∷ (c_string out ++ 10 ∷ [])) (print sram font bytes m'))

  unfoldable pub cmd_list : ℕ → Machine D → ℕ × Machine D
  cmd_list addr m = with_param sram font 4 addr m (λ a. list_rows 12 a m)

  -- `sram_write(addr, op, op_len)`
  abbrev pub stored : ℕ → ℕ → Machine D → Machine D
  stored addr len m = record m {
    console = record m.console {
      sram = sram.ram_write m.console.sram addr (cells m.buffer 64 len);
    };
  }

  -- `cmd_as` behind `dasm_as`. What the items of a refused `.` line leave behind `buffer + 64` is
  -- left out; nothing reads it.
  unfoldable pub as_stored : ℕ → Machine D → Assembled → Option (ℕ × Machine D)
  as_stored addr m stuck = none
  as_stored addr m error =
      some (addr, say sram font (codes "ERR: SYNTAX\n") (codes "ERR: SYNTAX\n") m)
  as_stored addr m (done len out) =
      let m' = record m { buffer = put_op out m.buffer } in
      some (
        if ltb 0 len
        then (u16 (addr + len), say sram font (codes "Ok\n") (codes "Ok\n") (stored addr len m'))
        else (addr, say sram font (codes "ERR: SYNTAX\n") (codes "ERR: SYNTAX\n") m'))

  unfoldable pub as_typed : ℕ → Machine D → Option (ℕ × Editor D × List ℕ) → Option (ℕ × Machine D)
  unfolding as_stored
  as_typed addr m none = none
  as_typed addr m (some (n, e, keys)) =
      let s = text_at e.buffer 0 in
      let m' = record m { console = e.console; buffer = e.buffer; keys = keys } in
      let assembled = record m' { buffer = upper_line s e.buffer } in
      if n == 0 then some (addr, m') else as_stored addr assembled (dasm_as beyond addr s)

  -- `cmd_as` behind its guards; `none` waits for a key.
  unfoldable pub as_line : ℕ → Machine D → Option (ℕ × Machine D)
  as_line addr m =
      let m' =
        print sram font (32 ∷ (hex4 addr ++ b':' ∷ 32 ∷ []))
          (record m { buffer = store m.buffer 0 0 }) in
      as_typed addr m' (buffered_input sram font m'.buffer 32 m'.keys m'.console)

  unfoldable pub cmd_as : ℕ → Machine D → Option (ℕ × Machine D)
  cmd_as addr m =
      if ends (m.buffer 2)
      then (elim (get_param (text_at m.buffer 2) addr) [
        | none ↦ some (addr, addr_err sram font m)
        | some r ↦ as_line r.1 m
      ])
      else some (addr, cmd_err sram font m)
