-- ===== src/Dasm/Words.antt =====
-- A mnemonic in the table and at the start of a line.
use dan.Prelude.{
  ℕ, suc, ◌<◌, ◌≡◌, ◌==◌, ◌&&◌, refl, ◌∙◌, arith, not, Bool, true, false, Option, none, some, List,
  [], ◌∷◌, ◌++◌, map, leb, ltb, if◌then◌else◌, length, all_below,
}
use dan.Vm.Decode.{Mode}
use dan.Dasm.Table.{Entry, vm_op_tbl}
use dan.Dasm.Find.{mode_code, same_letters, matches, find_row, find_mne, rows}
use dan.Dasm.Text.{is_space, skip_while}
use dan.Dasm.As.{
  done, to_upper, skip_whitespace, parse_operand, emit_op, assemble, dasm_as, drop, operand,
}
use dan.Dasm.Agree.{table_row, find_row-append}

-- Three upper case letters.
abbrev is_letter : ℕ → Bool
is_letter c = leb b'A' c && leb c b'Z'

unfoldable pub is_mnemonic : List ℕ → Bool
is_mnemonic (a ∷ b ∷ c ∷ _) = is_letter a && (is_letter b && is_letter c)
is_mnemonic _ = false

-- The same, and nothing behind them.
unfoldable pub is_word : List ℕ → Bool
unfolding is_mnemonic
is_word (a ∷ b ∷ c ∷ []) = is_mnemonic (a ∷ b ∷ c ∷ [])
is_word _ = false

-- Seven rows stand behind another one with the same letters and addressing: the assembler writes the
-- opcode of the first.
unfoldable pub assembled_as : ℕ → ℕ
assembled_as op =
    if op == 0x15
    then 0x01
    else if op == 0x35
    then 0x21
    else if op == 0x3d
    then 0x1d
    else if op == 0x75
    then 0x61
    else if op == 0xb5
    then 0xa1
    else if op == 0xd5
    then 0xc1
    else if op == 0xf5
    then 0xe1
    else op

unfoldable pub in_table : List ℕ → Option Mode → Option Entry
in_table mne m = find_row (matches mne m) vm_op_tbl

abbrev pub is_found : Option Entry → Bool
is_found none = false
is_found (some e) = true

abbrev pub has_opcode : ℕ → Option Entry → Bool
has_opcode op none = false
has_opcode op (some e) = e.opcode == op

abbrev pub fits : List ℕ → Mode → Bool
fits mne Mode.absolute = not (is_found (in_table mne (some Mode.relative)))
fits mne Mode.relative = not (is_found (in_table mne (some Mode.zero_page)))
fits mne _ = true

-- What the round trip needs of a row.
unfoldable pub row_ok : ℕ → Entry → Bool
row_ok op e =
    is_word e.mnemonic
    && (is_found (in_table e.mnemonic none)
        && (has_opcode (assembled_as op) (in_table e.mnemonic (some e.mode))
            && fits e.mnemonic e.mode))

abbrev pub checked : ℕ → Option Entry → Bool
checked op none = true
checked op (some e) = row_ok op e

pub table_checked : all_below (λ op. checked op (table_row op)) 256 ≡ true
unfolding all_below table_row find_row vm_op_tbl row_ok in_table matches mode_code same_letters
    is_mnemonic is_word assembled_as
table_checked = refl

same_letters-is_mnemonic :
    (mne q : List ℕ) → is_word mne ≡ true → same_letters mne q ≡ true → is_mnemonic q ≡ true
unfolding is_word is_mnemonic same_letters
same_letters-is_mnemonic (a ∷ b ∷ c ∷ []) (x ∷ y ∷ z ∷ rest) w h = ground (arith, w, h)
same_letters-is_mnemonic (a ∷ b ∷ c ∷ []) [] w h = cc
same_letters-is_mnemonic (a ∷ b ∷ c ∷ []) (x ∷ []) w h = cc
same_letters-is_mnemonic (a ∷ b ∷ c ∷ []) (x ∷ y ∷ []) w h = cc
same_letters-is_mnemonic [] q w h = cc
same_letters-is_mnemonic (a ∷ []) q w h = cc
same_letters-is_mnemonic (a ∷ b ∷ []) q w h = cc
same_letters-is_mnemonic (a ∷ b ∷ c ∷ d ∷ rest) q w h = cc

module _ (beyond : Entry) where
  pub in_rows :
      (mne : List ℕ) (m : Option Mode) (e : Entry)
      → in_table mne m ≡ some e
      → find_mne beyond mne m ≡ some e
  unfolding find_mne rows in_table
  in_rows mne m e h = find_row-append (matches mne m) vm_op_tbl beyond ∙ rw h refl

  pub not_in_rows :
      (mne : List ℕ) (m : Mode)
      → is_word mne ≡ true
      → is_mnemonic beyond.mnemonic ≡ false
      → in_table mne (some m) ≡ none
      → find_mne beyond mne (some m) ≡ none
  unfolding find_mne rows in_table
  not_in_rows mne m w stray h =
      let other : same_letters mne beyond.mnemonic ≡ false =
        ground (arith, same_letters-is_mnemonic mne beyond.mnemonic w, stray) in
      find_row-append (matches mne (some m)) vm_op_tbl beyond
      ∙ rw h (unfold matches in rw other refl)

  -- Only the first three letters count.
  pub find_mne-append :
      (mne text : List ℕ) (m : Option Mode)
      → is_word mne ≡ true
      → find_mne beyond (mne ++ text) m ≡ find_mne beyond mne m
  unfolding is_word find_mne matches same_letters
  find_mne-append (a ∷ b ∷ c ∷ []) text (some m) w = refl
  find_mne-append (a ∷ b ∷ c ∷ []) text none w = refl
  find_mne-append [] text m w = cc
  find_mne-append (a ∷ []) text m w = cc
  find_mne-append (a ∷ b ∷ []) text m w = cc
  find_mne-append (a ∷ b ∷ c ∷ d ∷ rest) text m w = cc

  -- A line of fewer than 256 characters that begins with three letters.
  pub dasm_as-assemble :
      (addr : ℕ) (mne text : List ℕ)
      → is_word mne ≡ true
      → length text < 253
      → dasm_as beyond addr (mne ++ text) ≡ assemble beyond addr (mne ++ map to_upper text)
  unfolding is_word is_mnemonic dasm_as skip_whitespace skip_while is_space to_upper
  dasm_as-assemble addr (a ∷ b ∷ c ∷ []) text w short =
      let start : is_space a ≡ false = ground (arith, w) in
      let no_dot : (a == b'.') ≡ false = ground (arith, w) in
      let long : ltb (suc (suc (suc (length text)))) 3 ≡ false = ground arith in
      let counted : ltb 255 (suc (suc (suc (length text)))) ≡ false = ground arith in
      let same_a : to_upper a ≡ a = ground (arith, w) in
      let same_b : to_upper b ≡ b = ground (arith, w) in
      let same_c : to_upper c ≡ c = ground (arith, w) in
      rw start (rw no_dot (rw long (rw counted (rw same_a (rw same_b (rw same_c refl))))))
  dasm_as-assemble addr [] text w short = cc
  dasm_as-assemble addr (a ∷ []) text w short = cc
  dasm_as-assemble addr (a ∷ b ∷ []) text w short = cc
  dasm_as-assemble addr (a ∷ b ∷ c ∷ d ∷ rest) text w short = cc

  pub assembled :
      (addr n v : ℕ) (mne : List ℕ) (m : Mode) (r e : Entry)
      → find_mne beyond mne none ≡ some r
      → parse_operand beyond addr mne (skip_whitespace (drop 3 mne)) ≡ operand m n v
      → find_mne beyond mne (some m) ≡ some e
      → assemble beyond addr mne ≡ done n (emit_op beyond e v n)
  unfolding assemble
  assembled addr n v mne m r e h1 h2 h3 = rw (assemble, h1) (rw h2 (rw h3 refl))
