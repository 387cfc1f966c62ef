-- ===== src/System/Run.antt =====
-- `cmd_run` of init/main.c: the virtual machine of vm/vm.c over the memory and the system calls of
-- init/syscall.c.
pub mod Exit
use dan.Prelude.{ℕ, zero, suc, ◌==◌, Bool, true, if◌then◌else◌, Option, none, some}
use dan.Vm.Bus.{Bus}
use dan.Vm.State.{Vm, vm_init}
use dan.Vm.Exec.{vm_exec}
use dan.System.{Machine, machine_ram}
use dan.System.Syscall.{vm_syscall}

-- Where the loop of `cmd_run` starts.
abbrev pub started : {D : Type 0} → Vm (Machine D) → Vm (Machine D)
started vm = vm_init (record vm { ram = record vm.ram { prog_exit = 0 } })

module _ {D : Type 0} (sram : Bus D) (font : ℕ → ℕ) (rand : ℕ → ℕ × ℕ) (srand : ℕ → ℕ) where
  -- What a system call leaves.
  abbrev pub after_call : Vm (Machine D) → Option (Vm (Machine D)) → Vm (Machine D)
  after_call vm none = record vm { ram = record vm.ram { stalled = true } }
  after_call vm (some vm') = vm'

  -- `vm_syscall` as `vm_exec` calls it.
  unfoldable pub call_sys : ℕ → ℕ → Vm (Machine D) → Vm (Machine D)
  call_sys rounds func vm = after_call vm (vm_syscall sram font rand srand rounds func vm)

  -- One round of the loop of `cmd_run`, and whether `vm_exec` returns 1.
  unfoldable pub vm_step : ℕ → Vm (Machine D) → Vm (Machine D) × Bool
  unfolding vm_exec
  vm_step rounds vm = vm_exec (machine_ram sram) (call_sys rounds) vm

  -- The loop of `cmd_run`, with the rounds left: `none` is a program that is still running.
  unfoldable pub run_program : ℕ → ℕ → Vm (Machine D) → Option (Vm (Machine D))
  run_program rounds zero vm = none
  run_program rounds (suc n) vm =
      let (vm', on) = vm_step rounds vm in
      let rest = run_program rounds n vm' in
      if vm.ram.prog_exit == 0
      then (if vm'.ram.stalled then none else if on then rest else some vm')
      else some vm

  unfoldable pub cmd_run : ℕ → ℕ → Vm (Machine D) → Option (Vm (Machine D))
  cmd_run rounds n vm = run_program rounds n (started vm)
