-- ===== src/System/Main/Examples.antt =====
-- The prompt on the flat memory of vm/test/test.c, and the theorems about it at concrete inputs.
use dan.Prelude.{ℕ, ◌+◌, ◌≡◌, refl, arith, inr, none, some, true, false, List, [], ◌∷◌, codes}
use dan.Vm.FlatRam.{Ram, flat_ram}
use dan.Vm.Decode.{Mode, Instr, switch, size}
use dan.Dasm.Table.{Entry}
use dan.Dasm.Find.{find_opcode}
use dan.Dasm.Das.{dasm_das, entry_text}
use dan.Dasm.Words.{is_mnemonic, assembled_as}
use dan.Dasm.Printed.{is_plain}
use dan.System.{Machine}
use dan.System.Commands.Code.{cmd_as}
use dan.System.Commands.Again.{Assembles, cmd_as-dasm_das}
use dan.System.Main.{Cmd, Exec, cmds, picks, same_start, same_text, find_cmd, Computer, main_round}
use dan.System.Main.Prompt.{Runs, main_round-Runs}

abbrev font : ℕ → ℕ
font i = 0

abbrev zeros : Entry
zeros = record { opcode = 0; mnemonic = 0 ∷ 0 ∷ 0 ∷ []; mode = Mode.implied }

-- A machine at which these keys are pressed.
abbrev typing : List ℕ → Machine Ram
typing keys = record {
  local = λ _. 0;
  console = record { x = 0; y = 0; cursor = false; sram = λ _. 0 };
  buffer = λ _. 0;
  prog_exit = 0;
  keys = keys;
  tapes = [];
  errors = [];
  sent = [];
  seed = 0;
  stalled = false;
}

abbrev prompt : List ℕ → Computer Ram
prompt keys = record {
  vm = record { r_a = 0; r_x = 0; r_y = 0; r_sp = 0; r_s = 0; r_pc = 0; ram = typing keys };
  peek_addr = 0;
  poke_addr = 0;
  list_addr = 0x1a00;
  as_addr = 0x1a00;
}

abbrev rand : ℕ → ℕ × ℕ
rand seed = (seed, seed + 1)

abbrev srand : ℕ → ℕ
srand n = n

finds_as :
    find_cmd (codes "As 1a00") cmds
    ≡ some (record { text = codes "as"; exec = Exec.assemble; has_params = true })
unfolding find_cmd cmds picks same_start same_text
finds_as = refl

finds_none : find_cmd (codes "runs") cmds ≡ none
unfolding find_cmd cmds picks same_start same_text
finds_none = refl

abbrev run_row : Cmd
run_row = record { text = codes "run"; exec = Exec.run; has_params = false }

abbrev cls_row : Cmd
cls_row = record { text = codes "cls"; exec = Exec.cls; has_params = false }

abbrev peek_row : Cmd
peek_row = record { text = codes "peek"; exec = Exec.peek; has_params = true }

abbrev behind_peek : List Cmd
behind_peek =
    record { text = codes "poke"; exec = Exec.poke; has_params = true }
    ∷ record { text = codes "load"; exec = Exec.load; has_params = false }
    ∷ record { text = codes "save"; exec = Exec.save; has_params = true }
    ∷ record { text = codes "list"; exec = Exec.list; has_params = true }
    ∷ record { text = codes "as"; exec = Exec.assemble; has_params = true }
    ∷ record { text = codes "help"; exec = Exec.help; has_params = false }
    ∷ []

main_round-Runs_example :
    Runs flat_ram font rand srand zeros 9
      (codes "Peek 1a00")
      peek_row
      (prompt (codes "Peek 1a00\nhelp"))
      (codes "help")
      (main_round flat_ram font rand srand zeros 9 (prompt (codes "Peek 1a00\nhelp")))
unfolding is_plain cmds picks same_start
main_round-Runs_example =
    main_round-Runs flat_ram font rand srand zeros 9 (codes "Peek 1a00") peek_row
      (run_row ∷ cls_row ∷ []) behind_peek refl (omega arith) (omega arith) refl refl
      (prompt (codes "Peek 1a00\nhelp")) (codes "help") refl

cmd_as-dasm_das_example :
    Assembles flat_ram font zeros 0x1a00 3
      (0xbd ∷ 0x34 ∷ 0x12 ∷ [])
      []
      (cmd_as flat_ram font zeros 0x1a00 (typing (codes "LDA $1234,X\n")))
unfolding switch size is_mnemonic assembled_as dasm_das find_opcode entry_text
cmd_as-dasm_das_example =
    cmd_as-dasm_das flat_ram font zeros 0x1a00 0xbd 0x34 0x12 (omega arith) (omega arith)
      (omega arith) (omega arith) refl
      (record { opcode = 0xbd; instr = Instr.lda; mode = Mode.absolute_x }) refl (inr (omega arith))
      [] (typing (codes "LDA $1234,X\n")) refl refl
