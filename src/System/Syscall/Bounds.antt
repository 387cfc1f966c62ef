-- ===== src/System/Syscall/Bounds.antt =====
-- What every system call leaves in bounds: the registers and the cursor.
use dan.Prelude.{
  ℕ, ◌<◌, ◌≡◌, ◌≢◌, ◌==◌, ◌||◌, ◌&&◌, ltb, if◌then◌else◌, both_branches, u8, bit_and, true, false,
  Option, some, List, arith, Bool-cases, inl, inr,
}
use mathlib.Core.Path.{subst}
use dan.Prelude.Int.{ℤ, pos, negsuc}
use dan.Bits.Flag.{bit_and-le_right}
use dan.Vm.Bus.{Bus}
use dan.Vm.Flags.{addr16}
use dan.Vm.State.{Vm}
use dan.Storage.Encoder.{Encoder}
use dan.Storage.Decoder.{Decoder, load_status, c_end}
use dan.Console.{Console, put_char, put_char-IsValid, put_chars, put_chars-IsValid}
use dan.Console
use dan.System.{Machine}
use dan.System.Storage.{load, save, save_frame, saved, load_frame}
use dan.System.Syscall.{
  sys_exit, sys_load, sys_save, sys_put_char, sys_put_string, sys_set_cursor, sys_fill_screen,
  write_parts, sys_write, sys_get_char, sys_read, sys_put_tile, sys_rand, sys_srand, sys_unknown,
  vm_syscall, next_key, args,
}
use dan.System.Syscall.Loops.{
  KeepsCursor, puts_in, InBounds, Returns, some-Returns, with_a, a-Returns, print_string-Returns,
  write_parts_in, read_keys-Returns,
}

module _ {D : Type 0} (sram : Bus D) (font : ℕ → ℕ) (C : Console D → Type 0)
    (kept : KeepsCursor sram font C) where
  load_status-bound : (dec : Decoder (ℕ × D)) → load_status dec < 256
  unfolding load_status
  load_status-bound dec = below dec.control
    where
      below : (c : ℤ) → load_status (record dec { control = c }) < 256
      below (pos n) = both_branches (λ (r : ℕ). r < 256) (n == c_end) (omega arith) (omega arith)
      below (negsuc n) = omega arith

  sys_load-Returns : (vm : Vm (Machine D)) → InBounds C vm → Returns C (sys_load sram font vm)
  unfolding sys_load load load_frame
  sys_load-Returns vm v =
      a-Returns C vm _ _ v (load_status-bound _) (kept.over_in vm.ram.console _ v.cursor)

  saved-InBounds :
      (n : ℕ) (vm : Vm (Machine D)) (r : ℕ × Encoder (List ℕ) × List ℕ)
      → InBounds C vm
      → InBounds C (record vm {
        r_a = (saved sram font n true vm.ram r).0;
        ram = (saved sram font n true vm.ram r).1;
      })
  unfolding saved
  saved-InBounds n vm (err, enc, errors) v =
      both_branches (λ (r : ℕ × Machine D). InBounds C (record vm { r_a = r.0; ram = r.1 }))
        (err == 0) (with_a C vm _ _ v (omega arith) v.cursor)
        (with_a C vm _ _ v (omega arith) v.cursor)

  sys_save-Returns : (vm : Vm (Machine D)) → InBounds C vm → Returns C (sys_save sram font vm)
  unfolding sys_save save save_frame
  sys_save-Returns vm v = some-Returns C _ (saved-InBounds _ vm _ v)

  sys_exit-InBounds : (vm : Vm (Machine D)) → InBounds C vm → InBounds C (sys_exit sram font vm)
  unfolding sys_exit
  sys_exit-InBounds vm v = with_a C vm _ _ v v.registers.a_byte (
      both_branches (λ (m : Machine D). C m.console) _
        (puts_in sram font C kept _ vm.ram.console v.cursor)
        (puts_in sram font C kept _ vm.ram.console v.cursor))

  sys_set_cursor-InBounds :
      (vm : Vm (Machine D)) → InBounds C vm → InBounds C (sys_set_cursor sram font vm)
  unfolding sys_set_cursor
  sys_set_cursor-InBounds vm v =
      let a = args sram 2 vm in
      elim (Bool-cases (ltb 31 (a 0) || ltb 23 (a 1))) [
        | inl out ↦ rw out (with_a C vm 1 vm.ram v (omega arith) v.cursor)
        | inr on ↦ rw on (
            with_a C vm 0 _ v (omega arith) (
              kept.placed_in vm.ram.console (a 0) (a 1) _ (ground (arith, on))
                (ground (arith, on))))
      ]

  sys_write-InBounds : (vm : Vm (Machine D)) → InBounds C vm → InBounds C (sys_write sram font vm)
  unfolding sys_write
  sys_write-InBounds vm v =
      let a = args sram 6 vm in
      let fd = addr16 (a 1) (a 0) in
      let count = addr16 (a 5) (a 4) in
      both_branches (InBounds C) (ltb 0 fd && ltb fd 3 && ltb 0 count)
        (with_a C vm (u8 count) (write_parts sram font count (addr16 (a 3) (a 2)) count vm.ram) v
          (omega arith) (write_parts_in sram font C kept count _ count vm.ram v.cursor))
        (with_a C vm 0 vm.ram v (omega arith) v.cursor)

  sys_put_char-InBounds :
      (vm : Vm (Machine D)) → InBounds C vm → InBounds C (sys_put_char sram font vm)
  unfolding sys_put_char
  sys_put_char-InBounds vm v =
      with_a C vm 0 (sys_put_char sram font vm).ram v (omega arith)
        (kept.over_in vm.ram.console _ v.cursor)

  sys_fill_screen-InBounds :
      (vm : Vm (Machine D)) → InBounds C vm → InBounds C (sys_fill_screen sram font vm)
  unfolding sys_fill_screen
  sys_fill_screen-InBounds vm v =
      with_a C vm 0 (sys_fill_screen sram font vm).ram v (omega arith)
        (kept.placed_in vm.ram.console 0 0 _ (omega arith) (omega arith))

  sys_get_char-InBounds :
      (vm : Vm (Machine D)) → InBounds C vm → InBounds C (sys_get_char sram font vm)
  unfolding sys_get_char
  sys_get_char-InBounds vm v =
      with_a C vm (u8 (next_key vm.ram.keys).0) (sys_get_char sram font vm).ram v (omega arith)
        (v.cursor)

  sys_put_tile-InBounds :
      (vm : Vm (Machine D)) → InBounds C vm → InBounds C (sys_put_tile sram font vm)
  unfolding sys_put_tile
  sys_put_tile-InBounds vm v =
      with_a C vm vm.r_a (sys_put_tile sram font vm).ram v (v.registers.a_byte)
        (kept.over_in vm.ram.console _ v.cursor)

  sys_unknown-InBounds :
      (func : ℕ) (vm : Vm (Machine D)) → InBounds C vm → InBounds C (sys_unknown sram font func vm)
  unfolding sys_unknown
  sys_unknown-InBounds func vm v =
      with_a C vm vm.r_a (sys_unknown sram font func vm).ram v (v.registers.a_byte)
        (puts_in sram font C kept _ vm.ram.console v.cursor)

  sys_read-Returns : (vm : Vm (Machine D)) → InBounds C vm → Returns C (sys_read sram font vm)
  unfolding sys_read
  sys_read-Returns vm v =
      both_branches (Returns C) _
        (read_keys-Returns sram font C kept vm.ram.keys _ _ _
          (with_a C vm _ _ v (omega arith) v.cursor))
        (a-Returns C vm _ _ v (omega arith) v.cursor)

  module _ (rand : ℕ → ℕ × ℕ) (srand : ℕ → ℕ) where
    sys_rand-InBounds :
        (vm : Vm (Machine D)) → InBounds C vm → InBounds C (sys_rand sram font rand srand vm)
    unfolding sys_rand
    sys_rand-InBounds vm v =
        with_a C vm (bit_and (rand vm.ram.seed).0 255) (sys_rand sram font rand srand vm).ram v
          (omega (arith, bit_and-le_right 8 (rand vm.ram.seed).0 255 (omega arith))) (v.cursor)

    sys_srand-InBounds :
        (vm : Vm (Machine D)) → InBounds C vm → InBounds C (sys_srand sram font rand srand vm)
    unfolding sys_srand
    sys_srand-InBounds vm v =
        with_a C vm 0 (sys_srand sram font rand srand vm).ram v (omega arith) (v.cursor)

    known-Returns :
        (rounds func : ℕ) (vm : Vm (Machine D))
        → func ≢ 0x21
        → InBounds C vm
        → Returns C (vm_syscall sram font rand srand rounds func vm)
    unfolding vm_syscall sys_put_string
    known-Returns rounds func vm other v =
        both_branches (Returns C) (func == 0x00) (some-Returns C _ (sys_exit-InBounds vm v)) (
          both_branches (Returns C) (func == 0x01) (sys_load-Returns vm v) (
            both_branches (Returns C) (func == 0x02) (sys_save-Returns vm v) (
              both_branches (Returns C) (func == 0x10)
                (some-Returns C _ (sys_put_char-InBounds vm v))
                (both_branches (Returns C) (func == 0x11)
                  (print_string-Returns sram font C kept rounds _ _
                    (with_a C vm 0 vm.ram v (omega arith) v.cursor))
                  (both_branches (Returns C) (func == 0x12)
                    (some-Returns C _ (sys_set_cursor-InBounds vm v))
                    (both_branches (Returns C) (func == 0x13)
                      (some-Returns C _ (sys_fill_screen-InBounds vm v))
                      (both_branches (Returns C) (func == 0x14)
                        (some-Returns C _ (sys_write-InBounds vm v))
                        (both_branches (Returns C) (func == 0x20)
                          (some-Returns C _ (sys_get_char-InBounds vm v))
                          (unless_input _ _ (
                            both_branches (Returns C) (func == 0x22) (sys_read-Returns vm v) (
                              both_branches (Returns C) (func == 0x30)
                                (some-Returns C _ (sys_put_tile-InBounds vm v))
                                (both_branches (Returns C) (func == 0xa0)
                                  (some-Returns C _ (sys_rand-InBounds vm v))
                                  (both_branches (Returns C) (func == 0xa1) (some-Returns C _ v) (
                                    both_branches (Returns C) (func == 0xa2)
                                      (some-Returns C _ (sys_srand-InBounds vm v))
                                      (both_branches (Returns C) (func == 0xf0)
                                        (a-Returns C vm 1 vm.ram v (omega arith) v.cursor)
                                        (some-Returns C _
                                          (sys_unknown-InBounds func vm v)))))))))))))))))
      where
        unless_input :
            (input rest : Option (Vm (Machine D)))
            → Returns C rest
            → Returns C (if func == 0x21 then input else rest)
        unless_input input rest h =
            let differs : (func == 0x21) ≡ false = ground arith in rw differs h

module _ {D : Type 0} (sram : Bus D) (font : ℕ → ℕ) where
  on_screen : KeepsCursor sram font Console.IsValid
  on_screen = record {
    put_in = put_char-IsValid sram font;
    over_in = λ con d v. record { x_le = v.x_le; y_le = v.y_le };
    placed_in = λ con x y d h k. record { x_le = h; y_le = k };
  }

  -- Each system call but the one with number 0x21 that reads a line, known or not, with any
  -- arguments on the stack, leaves the registers within their widths and the cursor on the screen,
  -- if they were there before.
  pub vm_syscall-InBounds :
      (rand : ℕ → ℕ × ℕ) (srand : ℕ → ℕ) (rounds func : ℕ) (vm vm' : Vm (Machine D))
      → func ≢ 0x21
      → InBounds Console.IsValid vm
      → vm_syscall sram font rand srand rounds func vm ≡ some vm'
      → InBounds Console.IsValid vm'
  unfolding Returns
  vm_syscall-InBounds rand srand rounds func vm vm' other v returns =
      subst (Returns Console.IsValid) returns
        (known-Returns sram font Console.IsValid on_screen rand srand rounds func vm other v)
