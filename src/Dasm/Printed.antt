-- ===== src/Dasm/Printed.antt =====
-- The characters that `dasm_das` prints.
use dan.Prelude.{
  ℕ, ◌+◌, ◌<◌, ◌≤◌, ◌≡◌, ◌&&◌, leb, refl, ap, arith, Bool, true, some, List, [], ◌∷◌, ◌++◌, length,
  and_split, ◌∙◌,
}
use mathlib.Core.Path.{subst}
use dan.Vm.Decode.{Mode, Case, switch}
use dan.Dasm.Table.{Entry}
use dan.Dasm.Text.{hex_digit, hex2, hex4}
use dan.Dasm.Das.{operand_text, dasm_das}
use dan.Dasm.Agree.{table_row, row_of_case, agrees}
use dan.Dasm.Words.{is_mnemonic, is_word, row_ok, checked}
use dan.Dasm.Roundtrip.{tail_text, text_of_row, row_checked}

-- No control code.
unfoldable pub is_plain : List ℕ → Bool
is_plain [] = true
is_plain (c ∷ cs) = leb 32 c && is_plain cs

tail_text-plain :
    (m : Mode) (addr b1 b2 : ℕ)
    → (is_plain (tail_text m addr b1 b2) ≡ true) × (length (tail_text m addr b1 b2) ≤ 8)
unfolding is_plain operand_text hex2 hex4 hex_digit
tail_text-plain Mode.implied addr b1 b2 = (refl, omega arith)
tail_text-plain _ addr b1 b2 = (ground arith, omega arith)

word-plain :
    (mne text : List ℕ)
    → is_word mne ≡ true
    → is_plain text ≡ true
    → (is_plain (mne ++ text) ≡ true) × (length (mne ++ text) ≡ length text + 3)
unfolding is_plain is_word is_mnemonic
word-plain (a ∷ b ∷ c ∷ []) text w h = (ground (arith, w, h), omega arith)
word-plain [] text w h = cc
word-plain (a ∷ []) text w h = cc
word-plain (a ∷ b ∷ []) text w h = cc
word-plain (a ∷ b ∷ c ∷ d ∷ rest) text w h = cc

-- The text of an instruction that the machine executes has no control code, and 3 to 11 characters.
pub dasm_das-plain :
    (beyond : Entry) (addr op b1 b2 : ℕ) (c : Case)
    → op < 256
    → switch op ≡ some c
    → (is_plain (dasm_das beyond addr op b1 b2).0 ≡ true)
      × (3 ≤ length (dasm_das beyond addr op b1 b2).0)
      × (length (dasm_das beyond addr op b1 b2).0 ≤ 11)
unfolding row_ok
dasm_das-plain beyond addr op b1 b2 c byte_op known =
    let (e, found, _, _) =
      row_of_case op (table_row op) c (rw known at (agrees beyond op byte_op)) in
    let ok = subst (λ r. checked op r ≡ true) found (row_checked op byte_op) in
    let (word, _) = and_split (is_word e.mnemonic) _ ok in
    let (plain, short) = tail_text-plain e.mode addr b1 b2 in
    let (all_plain, long) = word-plain e.mnemonic (tail_text e.mode addr b1 b2) word plain in
    let text : (dasm_das beyond addr op b1 b2).0 ≡ e.mnemonic ++ tail_text e.mode addr b1 b2 =
      ap (λ t. t.0) (text_of_row beyond addr op b1 b2 e found) in
    let size = ap {B = ℕ} length text in
    (ap is_plain text ∙ all_plain, omega (arith, size, long), omega (arith, size, long, short))
