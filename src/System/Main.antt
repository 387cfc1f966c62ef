-- ===== src/System/Main.antt =====
-- `main` of init/main.c: the table of the commands and the loop that reads and runs them.
pub mod Names
pub mod Prompt
mod Examples
use dan.Prelude.{
  ℕ, zero, suc, ◌+◌, ◌==◌, ◌&&◌, leb, if◌then◌else◌, Bool, true, false, Option, none, some, List,
  [], ◌∷◌, codes,
}
use dan.Vm.Bus.{Bus}
use dan.Vm.State.{Vm}
use dan.Dasm.Table.{Entry}
use dan.Editor.{Editor, buffered_input}
use dan.System.{Machine, say}
use dan.System.Commands.{
  text_at, cmd_err, cmd_save, cmd_load, cmd_cls, cmd_peek, cmd_poke, cmd_help,
}
use dan.System.Commands.Code.{cmd_list, cmd_as}
use dan.System.Run.{cmd_run}
use dan.Console.Screen.Clear.{video_cls}

-- The functions that the table points to.
pub data Exec : Type 0 where
  run cls peek poke load save list assemble help : Exec

-- `Cmd` of init/init.h.
pub record Cmd : Type 0 where
  pub text : List ℕ
  pub exec : Exec
  pub has_params : Bool

unfoldable pub cmds : List Cmd
cmds =
    record { text = codes "run"; exec = Exec.run; has_params = false }
    ∷ record { text = codes "cls"; exec = Exec.cls; has_params = false }
    ∷ record { text = codes "peek"; exec = Exec.peek; has_params = true }
    ∷ record { text = codes "poke"; exec = Exec.poke; has_params = true }
    ∷ record { text = codes "load"; exec = Exec.load; has_params = false }
    ∷ record { text = codes "save"; exec = Exec.save; has_params = true }
    ∷ record { text = codes "list"; exec = Exec.list; has_params = true }
    ∷ record { text = codes "as"; exec = Exec.assemble; has_params = true }
    ∷ record { text = codes "help"; exec = Exec.help; has_params = false }
    ∷ []

unfoldable pub to_lower : ℕ → ℕ
to_lower c = if leb b'A' c && leb c b'Z' then c + 32 else c

-- `strncasecmp(line, text, strlen(text)) == 0` and `strcasecmp(line, text) == 0`
unfoldable pub same_start : List ℕ → List ℕ → Bool
unfolding to_lower
same_start line [] = true
same_start [] (t ∷ ts) = false
same_start (c ∷ cs) (t ∷ ts) = to_lower c == to_lower t && same_start cs ts

unfoldable pub same_text : List ℕ → List ℕ → Bool
unfolding to_lower
same_text [] [] = true
same_text (c ∷ cs) [] = false
same_text [] (t ∷ ts) = false
same_text (c ∷ cs) (t ∷ ts) = to_lower c == to_lower t && same_text cs ts

-- The comparison for a row of the table.
unfoldable pub picks : List ℕ → Cmd → Bool
picks line c = if c.has_params then same_start line c.text else same_text line c.text

-- The first row that passes; `none` is CMD_COUNT.
unfoldable pub find_cmd : List ℕ → List Cmd → Option Cmd
unfolding picks
find_cmd line [] = none
find_cmd line (c ∷ cs) = if picks line c then some c else find_cmd line cs

-- The machine with the addresses that the commands keep.
pub record Computer (D : Type 0) : Type 0 where
  pub vm : Vm (Machine D)
  pub peek_addr : ℕ
  pub poke_addr : ℕ
  pub list_addr : ℕ
  pub as_addr : ℕ

module _ {D : Type 0} where
  abbrev pub with_machine : Computer D → Machine D → Computer D
  with_machine s m = record s { vm = record s.vm { ram = m } }

  abbrev pub machine_of : Computer D → Machine D
  machine_of s = s.vm.ram

  abbrev pub then_machine : Computer D → Option (Machine D) → Option (Computer D)
  then_machine s none = none
  then_machine s (some m) = some (with_machine s m)

  abbrev pub then_vm : Computer D → Option (Vm (Machine D)) → Option (Computer D)
  then_vm s none = none
  then_vm s (some vm) = some (record s { vm = vm })

  abbrev pub then_poke : Computer D → Option (ℕ × Machine D) → Option (Computer D)
  then_poke s none = none
  then_poke s (some (addr, m)) = some (record (with_machine s m) { poke_addr = addr })

  abbrev pub then_as : Computer D → Option (ℕ × Machine D) → Option (Computer D)
  then_as s none = none
  then_as s (some (addr, m)) = some (record (with_machine s m) { as_addr = addr })

module _ {D : Type 0} (sram : Bus D) (font : ℕ → ℕ) (rand : ℕ → ℕ × ℕ) (srand : ℕ → ℕ)
    (beyond : Entry) (rounds : ℕ) where
  -- `cmd()`; `none` waits for a key, or is a program that has not ended.
  unfoldable pub exec_cmd : Exec → Computer D → Option (Computer D)
  exec_cmd Exec.run s = then_vm s (cmd_run sram font rand srand rounds rounds s.vm)
  exec_cmd Exec.cls s = some (with_machine s (cmd_cls sram font (machine_of s)))
  exec_cmd Exec.peek s =
      let (addr, m) = cmd_peek sram font s.peek_addr (machine_of s) in
      some (record (with_machine s m) { peek_addr = addr })
  exec_cmd Exec.poke s = then_poke s (cmd_poke sram font s.poke_addr (machine_of s))
  exec_cmd Exec.load s = then_machine s (cmd_load sram font (machine_of s))
  exec_cmd Exec.save s = then_machine s (cmd_save sram font (machine_of s))
  exec_cmd Exec.list s =
      let (addr, m) = cmd_list sram font beyond s.list_addr (machine_of s) in
      some (record (with_machine s m) { list_addr = addr })
  exec_cmd Exec.assemble s = then_as s (cmd_as sram font beyond s.as_addr (machine_of s))
  exec_cmd Exec.help s = some (with_machine s (cmd_help sram font (machine_of s)))

  unfoldable pub dispatch : Computer D → Option Cmd → Option (Computer D)
  unfolding exec_cmd
  dispatch s none = some (with_machine s (cmd_err sram font (machine_of s)))
  dispatch s (some c) = exec_cmd c.exec s

  -- The loop of `main` behind the line that is read.
  unfoldable pub entered : Computer D → Option (ℕ × Editor D × List ℕ) → Option (Computer D)
  entered s none = none
  entered s (some (n, e, keys)) =
      let m = record (machine_of s) { console = e.console; buffer = e.buffer; keys = keys } in
      let s' = with_machine s m in
      if n == 0 then some s' else dispatch s' (find_cmd (text_at e.buffer 0) cmds)

  -- One round of the loop of `main`.
  unfoldable pub main_round : Computer D → Option (Computer D)
  unfolding entered
  main_round s =
      let m = machine_of s in entered s (buffered_input sram font m.buffer 64 m.keys m.console)

  -- `main` in front of the loop, behind the set-up of the hardware.
  unfoldable pub welcome : Machine D → Machine D
  welcome m =
      say sram font (codes "DAN64 v1, %u bytes free\nReady\n")
        (codes "DAN64 v1, 58880 bytes free\nReady\n")
        (record m { console = record m.console { sram = video_cls sram font 32 m.console.sram } })
