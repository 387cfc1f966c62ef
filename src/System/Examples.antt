-- ===== src/System/Examples.antt =====
-- The machine on the flat memory of vm/test/test.c, and the theorems about tapes and system calls.
use dan.Prelude.{
  ◌++◌, codes, ℕ, ◌+◌, ◌-◌, ◌≡◌, ◌==◌, if◌then◌else◌, refl, arith, some, List, [], ◌∷◌, byte, false,
  true,
}
use dan.Vm.FlatRam.{Ram, flat_ram}
use dan.Vm.State.{Vm}
use dan.Console.{put_chars}
use dan.Console
use dan.Memory.Sram.Flat.{replicate}
use dan.Storage.Encoder.{encode_end}
use dan.Storage.Decoder.Frame.{checksum, frame}
use dan.System.{Machine}
use dan.Dasm.Text.{
  hex_digit, hex2, hex4, is_xdigit, is_digit, is_space, sscanf_x, scan_signed, scan_prefixed,
  scan_digits, skip_while, span_length,
}
use dan.System.Commands.{chars, get_param, number_at, cmd_save, cmd_err, cmd_poke, drop_status}
use dan.System.Commands.Params.{get_param-hex4}
use dan.System.Commands.Range.{cmd_save-range, cmd_save-bad_address}
use dan.System.Commands.Poke.{Stored, cmd_poke-stores}
use dan.System.Run.{run_program}
use dan.System.Run.Exit.{run_program-exit, exit_text}
use dan.System.Storage.{load, save, save_queue}
use dan.System.Storage.Load.{loaded, load-frame}
use dan.System.Storage.Save.{peeks, header_and, save-plays, save-stops}
use dan.System.Syscall.{args, vm_syscall, sys_set_cursor}
use dan.System.Syscall.Loops.{InBounds}
use dan.System.Syscall.Bounds.{vm_syscall-InBounds}

abbrev font : ℕ → ℕ
font i = 0xaa

-- A machine with one tape, what `aout_err` returns, and bytes on the stack from 0x1f9 on.
abbrev machine : List ℕ → List ℕ → List ℕ → Machine Ram
machine tape errors stack = record {
  local = λ p. byte stack (p - 0x1f9);
  console = record { x = 0; y = 0; cursor = false; sram = λ p. if p == 0x1a00 then b'h' else 0 };
  buffer = λ _. 0;
  prog_exit = 0;
  keys = [];
  tapes = tape ∷ [];
  errors = errors;
  sent = [];
  seed = 0;
  stalled = false;
}

abbrev calling : List ℕ → Vm (Machine Ram)
calling stack = record {
  r_a = 0;
  r_x = 0;
  r_y = 0;
  r_sp = 0xf8;
  r_s = 0;
  r_pc = 0x1a00;
  ram = machine [] [] stack;
}

-- A tape with two bytes.
abbrev good : Machine Ram
good = machine (frame (1 ∷ 2 ∷ []) (checksum 0 (1 ∷ 2 ∷ [])) []) [] []

load-frame_example :
    (m' : Machine Ram) × (load flat_ram font 0x1a00 true good ≡ some (0, m'))
    × (flat_ram.peek m'.console.sram 0x1a01
        ≡ loaded flat_ram good.console.sram 0x1a00 (1 ∷ 2 ∷ []) 0x1a01)
load-frame_example =
    load-frame flat_ram font 0x1a00 good [] [] 1 (2 ∷ []) 0x1a01 (omega arith) (omega arith) refl

abbrev plays : Machine Ram
plays = machine [] (0 ∷ 0 ∷ 0 ∷ 0 ∷ []) []

save-plays_example :
    (m' : Machine Ram) × (save flat_ram font 0x1a00 0x1a02 true plays ≡ some (0, m'))
    × (m'.sent
        ≡ (encode_end 15625 save_queue
            (header_and flat_ram 2 (peeks flat_ram plays.console.sram 0x1a00 2) plays)).param)
unfolding replicate
save-plays_example =
    save-plays flat_ram font 0x1a00 0x1a02 plays (omega arith) (omega arith) [] refl

abbrev stops : Machine Ram
stops = machine [] (0 ∷ 1 ∷ 1 ∷ 1 ∷ []) []

save-stops_example :
    (m' : Machine Ram) × (save flat_ram font 0x1a00 0x1a02 true stops ≡ some (1, m'))
    × (m'.sent ≡ (header_and flat_ram 2 (peeks flat_ram stops.console.sram 0x1a00 1) stops).param)
unfolding replicate
save-stops_example =
    save-stops flat_ram font 0x1a00 0x1a02 stops (omega arith) (omega arith) 1 1 [] (omega arith)
      (omega arith) refl

abbrev rand : ℕ → ℕ × ℕ
rand seed = (seed, seed + 1)

abbrev srand : ℕ → ℕ
srand n = n

abbrev to_place : Vm (Machine Ram)
to_place = calling (5 ∷ 7 ∷ [])

vm_syscall-InBounds_example : InBounds Console.IsValid (sys_set_cursor flat_ram font to_place)
vm_syscall-InBounds_example =
    vm_syscall-InBounds flat_ram font rand srand 0 0x12 to_place
      (sys_set_cursor flat_ram font to_place) (omega arith)
      (record {
        registers = record {
          a_byte = omega arith;
          x_byte = omega arith;
          y_byte = omega arith;
          sp_byte = omega arith;
          s_byte = omega arith;
          pc_word = omega arith;
        };
        cursor = record { x_le = omega arith; y_le = omega arith };
      })
      (unfold vm_syscall in refl)

abbrev says : Vm (Machine Ram)
says = calling (0x1a ∷ 0 ∷ [])

abbrev writes : Vm (Machine Ram)
writes = calling (0 ∷ 1 ∷ 0x1a ∷ 0 ∷ 0 ∷ 2 ∷ [])

-- A command line in the buffer, and keys.
abbrev typed_at : List ℕ → List ℕ → Machine Ram
typed_at text keys = record (machine [] [] []) { buffer = byte text; keys = keys }

get_param-hex4_example :
    get_param (replicate 2 32 ++ (hex4 0x1a2b ++ codes " x")) 0 ≡ some (6, 0x1a2b)
unfolding is_xdigit is_digit
get_param-hex4_example = get_param-hex4 2 0x1a2b 0 (codes " x") (omega arith) (omega arith) refl

abbrev save_line : Machine Ram
save_line = typed_at (codes "save 1a00 1a02") []

cmd_save-range_example :
    cmd_save flat_ram font save_line
    ≡ drop_status flat_ram font (save flat_ram font 0x1a00 0x1a02 false save_line)
unfolding chars hex4 hex2 hex_digit
cmd_save-range_example =
    cmd_save-range flat_ram font save_line 0x1a00 0x1a02 (omega arith) (omega arith) refl

abbrev bad_line : Machine Ram
bad_line = typed_at (codes "save zz") []

cmd_save-bad_address_example :
    cmd_save flat_ram font bad_line ≡ some (cmd_err flat_ram font bad_line)
unfolding chars get_param number_at sscanf_x scan_signed scan_prefixed scan_digits skip_while
    span_length is_xdigit is_digit is_space
cmd_save-bad_address_example =
    cmd_save-bad_address flat_ram font bad_line (omega arith) (omega arith) refl refl

abbrev poke_line : Machine Ram
poke_line = typed_at (codes "poke") (b'4' ∷ b'2' ∷ 0x0a ∷ b'z' ∷ [])

cmd_poke-stores_example :
    Stored flat_ram font 0x1a00 0x42 (b'z' ∷ []) (cmd_poke flat_ram font 0x1a00 poke_line)
unfolding hex2 hex_digit
cmd_poke-stores_example =
    cmd_poke-stores flat_ram font 0x1a00 0x42 (b'z' ∷ []) poke_line (omega arith) (omega arith) refl
      refl

-- SYS at 0x1a00, with the code 3 on the stack.
abbrev leaves : Vm (Machine Ram)
leaves = record (calling (3 ∷ [])) {
  ram = record (machine [] [] (3 ∷ [])) {
    console = record { x = 0; y = 0; cursor = false; sram = λ p. if p == 0x1a00 then 2 else 0 };
  };
}

run_program-exit_example :
    (m : Machine Ram) × (run_program flat_ram font rand srand 0 2 leaves
      ≡ some (record leaves { r_pc = 0x1a01; ram = m }))
    × (m.prog_exit ≡ 1)
    × (m.console
        ≡ put_chars flat_ram font (exit_text (args flat_ram 1 leaves 0)) leaves.ram.console)
run_program-exit_example =
    run_program-exit flat_ram font rand srand 0 0 leaves refl refl (omega arith) refl refl
