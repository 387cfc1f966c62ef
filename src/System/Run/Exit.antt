-- ===== src/System/Run/Exit.antt =====
-- How a program ends: the system call 0x00 and the loop of `cmd_run`.
use dan.Prelude.{
  ℕ, suc, ◌+◌, ◌≤◌, ◌≡◌, ◌==◌, refl, ap, ◌∙◌, true, false, Bool-cases, inl, inr, if◌then◌else◌,
  arith, some, List, [], ◌∷◌, ◌++◌, codes, byte, u16,
}
use dan.Vm.Bus.{Bus}
use dan.Vm.State.{Vm}
use dan.Vm.Decode.{switch, size}
use dan.Vm.Operand.{advance}
use dan.Vm.Exec.{vm_exec}
use dan.Dasm.Text.{hex2}
use dan.Console.{put_chars}
use dan.System.{Machine, machine_ram}
use dan.System.Syscall.{args, sys_exit, vm_syscall}
use dan.System.Run.{call_sys, vm_step, run_program}

-- The instruction SYS, on any memory and with any system calls.
vm_exec-sys :
    {M : Type 0} (bus : Bus M) (calls : ℕ → Vm M → Vm M) (vm : Vm M)
    → byte (bus.ram_read vm.ram vm.r_pc 3) 0 ≡ 2
    → vm_exec bus calls vm ≡ (advance 1 (calls vm.r_a vm), true)
unfolding vm_exec switch size
vm_exec-sys bus calls vm h = rw (h, vm_exec) refl

-- What is printed for the code that a program leaves.
abbrev pub exit_text : ℕ → List ℕ
exit_text code = if code == 0 then codes "Ok\n" else codes "ERR: PRG " ++ hex2 code ++ 10 ∷ []

exit_text_ok : (code : ℕ) → (code == 0) ≡ true → codes "Ok\n" ≡ exit_text code
exit_text_ok code h = rw h refl

exit_text_error :
    (code : ℕ) → (code == 0) ≡ false → codes "ERR: PRG " ++ hex2 code ++ 10 ∷ [] ≡ exit_text code
exit_text_error code h = rw h refl

module _ {D : Type 0} (sram : Bus D) (font : ℕ → ℕ) where
  -- The state that the system call leaves.
  record Ended (vm : Vm (Machine D)) (m : Machine D) : Type 0 where
    exit_lem : m.prog_exit ≡ 1
    stalled_lem : m.stalled ≡ vm.ram.stalled
    console_lem : m.console ≡ put_chars sram font (exit_text (args sram 1 vm 0)) vm.ram.console

  sys_exit-Ended : (vm : Vm (Machine D)) → Ended vm (sys_exit sram font vm).ram
  unfolding sys_exit
  sys_exit-Ended vm = elim (Bool-cases (args sram 1 vm 0 == 0)) [
    | inl ok ↦ rw ok record {
      exit_lem = refl;
      stalled_lem = refl;
      console_lem =
          ap (λ (cs : List ℕ). put_chars sram font cs vm.ram.console)
            (exit_text_ok (args sram 1 vm 0) ok);
    }
    | inr error ↦ rw error record {
      exit_lem = refl;
      stalled_lem = refl;
      console_lem =
          ap (λ (cs : List ℕ). put_chars sram font cs vm.ram.console)
            (exit_text_error (args sram 1 vm 0) error);
    }
  ]

  module _ (rand : ℕ → ℕ × ℕ) (srand : ℕ → ℕ) (rounds n : ℕ) (vm : Vm (Machine D))
      (running : vm.ram.prog_exit ≡ 0) (free : vm.ram.stalled ≡ false)
      (inside : vm.r_pc + 3 ≤ 65536) (is_sys : (machine_ram sram).peek vm.ram vm.r_pc ≡ 2)
      (is_exit : vm.r_a ≡ 0) where
    fetched : byte ((machine_ram sram).ram_read vm.ram vm.r_pc 3) 0 ≡ 2
    fetched =
        (machine_ram sram).ram_read_lem vm.ram vm.r_pc 3 0 inside (omega arith)
        ∙ ap ((machine_ram sram).peek vm.ram) (omega arith)
        ∙ is_sys

    called : call_sys sram font rand srand rounds vm.r_a vm ≡ sys_exit sram font vm
    unfolding call_sys vm_syscall
    called = rw (call_sys, is_exit) refl

    executed :
        vm_step sram font rand srand rounds vm
        ≡ (record vm { r_pc = u16 (vm.r_pc + 1); ram = (sys_exit sram font vm).ram }, true)
    unfolding vm_step call_sys vm_syscall sys_exit advance
    executed =
        vm_exec-sys (machine_ram sram) (call_sys sram font rand srand rounds) vm fetched
        ∙ ap (λ (v : Vm (Machine D)). (advance 1 v, true)) called

    -- A program that executes SYS with 0 in the accumulator ends there, whatever follows it: the loop
    -- of `cmd_run` returns after this instruction, with prog_exit set, the program counter on the
    -- next byte and the other registers as they were, and the text of the code on the stack is
    -- printed: Ok for 0, else the error with the code in two digits. The program has not ended before,
    -- and the three bytes at the program counter lie within the memory.
    pub run_program-exit :
        (m : Machine D) × (run_program sram font rand srand rounds (suc (suc n)) vm
          ≡ some (record vm { r_pc = vm.r_pc + 1; ram = m }))
        × (m.prog_exit ≡ 1)
        × (m.console ≡ put_chars sram font (exit_text (args sram 1 vm 0)) vm.ram.console)
    unfolding run_program
    run_program-exit =
        let m = (sys_exit sram font vm).ram in
        let ended = sys_exit-Ended vm in
        let on : (vm.ram.prog_exit == 0) ≡ true = ground arith in
        let off : (m.prog_exit == 0) ≡ false = ground (arith, ended.exit_lem) in
        let goes_on : m.stalled ≡ false = ended.stalled_lem ∙ free in
        (
          m,
          rw (on, executed)
              (rw (goes_on, off)
                (ap (λ (pc : ℕ). some (record vm { r_pc = pc; ram = m })) (omega arith))),
          ended.exit_lem,
          ended.console_lem,
        )
