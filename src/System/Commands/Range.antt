-- ===== src/System/Commands/Range.antt =====
-- The range that `cmd_save` saves.
use dan.Prelude.{
  ℕ, ◌+◌, ◌-◌, ◌<◌, ◌≡◌, ◌≢◌, ◌==◌, ◌||◌, refl, ap, ap₂, ◌∙◌, arith, leb, false, none, some, List,
  [], ◌∷◌, ◌++◌, length,
}
use dan.Vm.Bus.{Bus}
use dan.Memory.Sram.Flat.{replicate}
use dan.Dasm.Text.{hex2, hex4, is_xdigit, is_digit}
use dan.System.{Machine}
use dan.System.Commands.{chars, get_param, text_at, cmd_save, cmd_err, save_to, drop_status}
use dan.System.Commands.Params.{get_param-hex4, at_char}
use dan.System.Storage.{save}

-- The string behind a number of characters.
at_chars :
    (xs : List ℕ) (n : ℕ) (buffer : ℕ → ℕ) (p c : ℕ) (cs : List ℕ)
    → chars n buffer p ≡ xs ++ c ∷ cs
    → (buffer (p + length xs) ≡ c) × (chars (n - length xs) buffer (p + length xs) ≡ c ∷ cs)
at_chars [] n buffer p c cs h = (
  ap buffer (omega arith) ∙ (at_char n buffer p c cs h).0,
  ap₂ (λ (n p : ℕ). chars n buffer p) (omega arith) (omega arith) ∙ h,
)
at_chars (x ∷ xs) n buffer p c cs h =
    let (_, rest) = at_char n buffer p x (xs ++ c ∷ cs) h in
    let (here, behind) = at_chars xs (n - 1) buffer (p + 1) c cs rest in
    (
      ap buffer (omega arith) ∙ here,
      ap₂ (λ (n p : ℕ). chars n buffer p) (omega arith) (omega arith) ∙ behind,
    )

-- The two parameters of the command.
module _ (buffer : ℕ → ℕ) (start end : ℕ) (ordered : start < end) (small : end < 65536)
    (typed : text_at buffer 4 ≡ 32 ∷ (hex4 start ++ 32 ∷ hex4 end)) where
  first_param : get_param (text_at buffer 4) 0x1a00 ≡ some (5, start)
  unfolding replicate is_xdigit is_digit
  first_param =
      ap (λ (s : List ℕ). get_param s 0x1a00) typed
      ∙ get_param-hex4 1 start 0x1a00 (32 ∷ hex4 end) (omega arith) (omega arith) refl

  space : buffer 4 ≡ 32
  space = (at_char 124 buffer 4 32 (hex4 start ++ 32 ∷ hex4 end) typed).0

  behind : (buffer 9 ≡ 32) × (text_at buffer 9 ≡ 32 ∷ hex4 end)
  unfolding hex4 hex2
  behind = at_chars (32 ∷ hex4 start) 124 buffer 4 32 (hex4 end) typed

  second_param : get_param (text_at buffer 9) 0xffff ≡ some (5, end)
  unfolding hex4 hex2 replicate
  second_param =
      ap (λ (s : List ℕ). get_param s 0xffff) behind.1
      ∙ get_param-hex4 1 end 0xffff [] small (omega arith) refl

module _ {D : Type 0} (sram : Bus D) (font : ℕ → ℕ) (m : Machine D) where
  -- The command `save` with two addresses as `%04x` prints them, four lower case digits, with one
  -- space before each, nothing behind and the first below the second, saves the memory from the first
  -- to before the second, with messages on the screen.
  pub cmd_save-range :
      (start end : ℕ)
      → start < end
      → end < 65536
      → text_at m.buffer 4 ≡ 32 ∷ (hex4 start ++ 32 ∷ hex4 end)
      → cmd_save sram font m ≡ drop_status sram font (save sram font start end false m)
  unfolding cmd_save save_to
  cmd_save-range start end ordered small typed =
      let first = first_param m.buffer start end ordered small typed in
      let (next, _) = behind m.buffer start end ordered small typed in
      let increasing : leb end start ≡ false = ground arith in
      rw first (
        rw (space m.buffer start end ordered small typed)
          (rw next (rw (second_param m.buffer start end ordered small typed) (rw increasing refl))))

  -- A first address that is no number is reported as a bad command.
  pub cmd_save-bad_address :
      m.buffer 3 ≢ 0
      → m.buffer 3 ≢ 32
      → m.buffer 4 ≡ 32
      → get_param (text_at m.buffer 4) 0x1a00 ≡ none
      → cmd_save sram font m ≡ some (cmd_err sram font m)
  unfolding cmd_save
  cmd_save-bad_address no_end no_space space bad =
      let name : (m.buffer 3 == 0 || m.buffer 3 == 32) ≡ false = ground arith in
      rw bad (rw space (rw name refl))
