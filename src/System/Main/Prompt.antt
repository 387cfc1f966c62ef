-- ===== src/System/Main/Prompt.antt =====
-- A command that is typed at the prompt.
use dan.Prelude.{
  ℕ, ◌+◌, ◌<◌, ◌≤◌, ◌≡◌, ◌==◌, refl, ap, ◌∙◌, sym, arith, true, false, Option, none, some, List, [],
  ◌∷◌, ◌++◌, length,
}
use dan.Vm.Bus.{Bus}
use dan.Dasm.Table.{Entry}
use dan.Dasm.Printed.{is_plain}
use dan.Editor.{Editor, buffered_input}
use dan.Editor.Cells.{cells}
use dan.Editor.Input.{returned, zstring, buffered_input-line}
use dan.System.{Machine}
use dan.System.Commands.{text_at}
use dan.System.Commands.Typed.{line-plain, chars-plain}
use dan.System.Main.{
  Cmd, cmds, picks, find_cmd, Computer, with_machine, machine_of, exec_cmd, dispatch, entered,
  main_round,
}
use dan.System.Main.Names.{find_cmd-row}

module _ {D : Type 0} (sram : Bus D) (font : ℕ → ℕ) (rand : ℕ → ℕ × ℕ) (srand : ℕ → ℕ)
    (beyond : Entry) (rounds : ℕ) (line : List ℕ) (c : Cmd) where
  -- The command is run on the machine with the line in its buffer and the other keys left.
  abbrev pub Runs : Computer D → List ℕ → Option (Computer D) → Type 0
  Runs s keys r =
      (m : Machine D) × (r ≡ exec_cmd sram font rand srand beyond rounds c.exec (with_machine s m))
      × (text_at m.buffer 0 ≡ line)
      × (m.keys ≡ keys)

  module _ (before behind : List Cmd) (plain : is_plain line ≡ true) (some_chars : 1 ≤ length line)
      (short : length line < 64) (row : cmds ≡ before ++ c ∷ behind)
      (picked : picks line c ≡ true) where
    entered-Runs :
        (s : Computer D) (keys : List ℕ) (r : Option (ℕ × Editor D × List ℕ))
        → returned r ≡ some (length line, line ++ 0 ∷ [], keys)
        → Runs s keys (entered sram font rand srand beyond rounds s r)
    unfolding entered dispatch
    entered-Runs s keys none h = absurd cc
    entered-Runs s keys (some (n, e, ks)) h =
        let n_chars : n ≡ length line = cc in
        let left : ks ≡ keys = cc in
        let held : cells e.buffer 0 (n + 1) ≡ line ++ 0 ∷ [] = cc in
        let typed : (n == 0) ≡ false = ground (arith, n_chars, some_chars) in
        let string : text_at e.buffer 0 ≡ line =
          chars-plain 128 0 e.buffer line plain (omega (arith, short))
            (ap (λ (k : ℕ). cells e.buffer 0 (k + 1)) (sym n_chars) ∙ held) in
        let m = record (machine_of s) { console = e.console; buffer = e.buffer; keys = ks } in
        let found =
          ap (λ l. find_cmd l cmds) string ∙ find_cmd-row line before behind c row picked in
        (m, rw (typed, found) refl, string, left)

    -- Whatever the state, a line of at most 63 printable characters that is typed at the prompt and that
    -- the comparison for a row of the table of commands accepts, in any mix of upper and lower case,
    -- runs the command of that row and no other one, with the line in the buffer and the keys behind
    -- the new line left.
    pub main_round-Runs :
        (s : Computer D) (keys : List ℕ)
        → (machine_of s).keys ≡ line ++ 0x0a ∷ keys
        → Runs s keys (main_round sram font rand srand beyond rounds s)
    unfolding main_round
    main_round-Runs s keys typed =
        let m = machine_of s in
        let read : returned (buffered_input sram font m.buffer 64 m.keys m.console)
            ≡ some (length line, line ++ 0 ∷ [], keys) =
          ap (λ (ks : List ℕ). returned (buffered_input sram font m.buffer 64 ks m.console)) typed
          ∙ buffered_input-line sram font m.buffer 64 (line ++ 0x0a ∷ keys) m.console (omega arith)
              (omega arith)
          ∙ ap zstring (line-plain 64 line [] keys plain (omega (arith, short))) in
        entered-Runs s keys _ read
