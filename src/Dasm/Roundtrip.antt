-- ===== src/Dasm/Roundtrip.antt =====
-- The text that `dasm_das` prints, given to `dasm_as`.
use dan.Prelude.{
  ℕ, ◌+◌, ◌*◌, ◌/◌, ◌<◌, ◌≤◌, ◌≡◌, ◌≢◌, ◌⊎◌, inl, inr, refl, ap, ap₂, sym, Bool, ◌∙◌, arith, u8,
  Bool, true, false, Option, none, some, List, [], ◌∷◌, ◌++◌, map, ltb, if◌then◌else◌, length,
  all_below_sound, and_split, ==→eq,
}
use mathlib.Core.List.{append_assoc, append-nil}
use mathlib.Core.Path.{subst}
use dan.Vm.Decode.{Mode, Case, switch, size}
use dan.Dasm.Table.{Entry}
use dan.Dasm.Find.{find_mne}
use dan.Dasm.Text.{is_space, skip_while, hex2, hex4, hex_digit}
use dan.Dasm.Das.{operand_text, entry_text, dasm_das}
use dan.Dasm.As.{done, to_upper, skip_whitespace, parse_operand, emit_op, dasm_as, drop, has_mode}
use dan.Dasm.Agree.{table_row, find_opcode_lem, operand_text-size, row_of_case, agrees}
use dan.Dasm.Parse.{
  operand_line, line_end, value_of, parses_implied, parses_accumulator, parses_immediate,
  parses_zero_page, parses_zero_page_x, parses_zero_page_y, parses_absolute, parses_absolute_x,
  parses_absolute_y, parses_ind_abs, parses_index_ind, parses_ind_index, parses_relative, Reads,
}
use dan.Dasm.Words.{
  is_mnemonic, is_word, assembled_as, in_table, is_found, has_opcode, fits, row_ok, checked,
  table_checked, in_rows, not_in_rows, find_mne-append, dasm_as-assemble, assembled,
}

-- What follows the mnemonic.
abbrev pub tail_text : Mode → ℕ → ℕ → ℕ → List ℕ
tail_text m addr b1 b2 =
    let text = (operand_text m addr b1 b2).0 in elim m [ Mode.implied ↦ [] | _ ↦ b' ' ∷ text ]

skip_tail :
    (nl : Bool) (m : Mode) (addr b1 b2 : ℕ)
    → skip_whitespace (map to_upper (tail_text m addr b1 b2 ++ line_end nl))
      ≡ operand_line nl m addr b1 b2
unfolding skip_whitespace skip_while is_space operand_text to_upper
skip_tail true Mode.implied addr b1 b2 = refl
skip_tail false Mode.implied addr b1 b2 = refl
skip_tail true _ addr b1 b2 = refl
skip_tail false _ addr b1 b2 = refl

tail_text-short :
    (m : Mode) (addr b1 b2 : ℕ) (nl : Bool) → length (tail_text m addr b1 b2 ++ line_end nl) < 253
unfolding operand_text hex2 hex4 hex_digit
tail_text-short m addr b1 b2 true = short m
  where
    short : (m : Mode) → length (tail_text m addr b1 b2 ++ line_end true) < 253
    short Mode.implied = omega arith
    short _ = omega arith
tail_text-short m addr b1 b2 false = short m
  where
    short : (m : Mode) → length (tail_text m addr b1 b2 ++ line_end false) < 253
    short Mode.implied = omega arith
    short _ = omega arith

-- The bytes of an instruction of a given length.
abbrev pub code : ℕ → ℕ → ℕ → ℕ → List ℕ
code op b1 b2 n = op ∷ ((if ltb 1 n then b1 ∷ [] else []) ++ (if ltb 2 n then b2 ∷ [] else []))

one_byte : (op b1 : ℕ) → b1 < 256 → op ∷ u8 b1 ∷ [] ≡ op ∷ b1 ∷ []
one_byte op b1 h = ap (λ b. op ∷ b ∷ []) (omega arith)

two_bytes :
    (op b1 b2 : ℕ)
    → b1 < 256
    → b2 < 256
    → op ∷ u8 (b1 + b2 * 256) ∷ u8 ((b1 + b2 * 256) / 256) ∷ [] ≡ op ∷ b1 ∷ b2 ∷ []
two_bytes op b1 b2 h1 h2 = ap₂ (λ a b. op ∷ a ∷ b ∷ []) (omega arith) (omega arith)

missing_none : (r : Option Entry) → is_found r ≡ false → r ≡ none
missing_none none h = refl
missing_none (some e) h = cc

drop_word : (mne text : List ℕ) → is_word mne ≡ true → drop 3 (mne ++ text) ≡ text
unfolding is_word
drop_word (a ∷ b ∷ c ∷ []) text w = refl
drop_word [] text w = cc
drop_word (a ∷ []) text w = cc
drop_word (a ∷ b ∷ []) text w = cc
drop_word (a ∷ b ∷ c ∷ d ∷ rest) text w = cc

found_some : (r : Option Entry) → is_found r ≡ true → (e : Entry) × (r ≡ some e)
found_some none h = cc
found_some (some e) h = (e, refl)

opcode_found :
    (op : ℕ) (r : Option Entry)
    → has_opcode op r ≡ true
    → (e : Entry) × (r ≡ some e) × (e.opcode ≡ op)
opcode_found op none h = cc
opcode_found op (some e) h = (e, refl, ==→eq _ _ h)

emitted :
    (beyond e : Entry) (m : Mode) (b1 b2 : ℕ)
    → b1 < 256
    → b2 < 256
    → emit_op beyond e (value_of m b1 b2) (size m) ≡ code e.opcode b1 b2 (size m)
unfolding emit_op value_of size
emitted beyond e Mode.implied b1 b2 h1 h2 = refl
emitted beyond e Mode.accumulator b1 b2 h1 h2 = refl
emitted beyond e Mode.absolute b1 b2 h1 h2 = two_bytes e.opcode b1 b2 h1 h2
emitted beyond e Mode.absolute_x b1 b2 h1 h2 = two_bytes e.opcode b1 b2 h1 h2
emitted beyond e Mode.absolute_y b1 b2 h1 h2 = two_bytes e.opcode b1 b2 h1 h2
emitted beyond e Mode.ind_abs b1 b2 h1 h2 = two_bytes e.opcode b1 b2 h1 h2
emitted beyond e _ b1 b2 h1 h2 = one_byte e.opcode b1 h1

module _ (beyond : Entry) (addr b1 b2 : ℕ) (mne : List ℕ) (nl : Bool) (small : addr < 65536)
    (h1 : b1 < 256) (h2 : b2 < 256) (stray : is_mnemonic beyond.mnemonic ≡ false)
    (word : is_word mne ≡ true) where
  finds :
      (text : List ℕ) (m : Mode) (r : Option Entry)
      → find_mne beyond mne (some m) ≡ r
      → has_mode beyond (mne ++ text) m ≡ is_found r
  finds text m none h =
      ap (λ r. elim r as (λ _. Bool) [ none ↦ false | some _ ↦ true ])
        (find_mne-append beyond mne text (some m) word ∙ h)
  finds text m (some e) h =
      ap (λ r. elim r as (λ _. Bool) [ none ↦ false | some _ ↦ true ])
        (find_mne-append beyond mne text (some m) word ∙ h)

  has_true :
      (text : List ℕ) (m : Mode) (e : Entry)
      → in_table mne (some m) ≡ some e
      → has_mode beyond (mne ++ text) m ≡ true
  has_true text m e found = finds text m (some e) (in_rows beyond mne (some m) e found)

  has_false :
      (text : List ℕ) (m : Mode)
      → is_found (in_table mne (some m)) ≡ false
      → has_mode beyond (mne ++ text) m ≡ false
  has_false text m missing =
      finds text m none
        (not_in_rows beyond mne m word stray (missing_none (in_table mne (some m)) missing))

  reads :
      (text : List ℕ) (m : Mode) (e : Entry)
      → in_table mne (some m) ≡ some e
      → fits mne m ≡ true
      → (size m ≤ 2) ⊎ (b2 ≢ 0)
      → Reads beyond addr b1 b2 (mne ++ text) nl h1 h2 m
  unfolding size
  reads text Mode.implied e found h wide = parses_implied beyond addr b1 b2 (mne ++ text) nl h1 h2
  reads text Mode.accumulator e found h wide =
      parses_accumulator beyond addr b1 b2 (mne ++ text) nl h1 h2
  reads text Mode.immediate e found h wide =
      parses_immediate beyond addr b1 b2 (mne ++ text) nl h1 h2
  reads text Mode.zero_page e found h wide =
      parses_zero_page beyond addr b1 b2 (mne ++ text) nl h1 h2
        (has_true text Mode.zero_page e found)
  reads text Mode.zero_page_x e found h wide =
      parses_zero_page_x beyond addr b1 b2 (mne ++ text) nl h1 h2
        (has_true text Mode.zero_page_x e found)
  reads text Mode.zero_page_y e found h wide =
      parses_zero_page_y beyond addr b1 b2 (mne ++ text) nl h1 h2
        (has_true text Mode.zero_page_y e found)
  reads text Mode.absolute e found h (inr big) =
      parses_absolute beyond addr b1 b2 (mne ++ text) nl h1 h2 big
        (has_false text Mode.relative (ground (arith, h)))
  reads text Mode.absolute_x e found h (inr big) =
      parses_absolute_x beyond addr b1 b2 (mne ++ text) nl h1 h2 big
  reads text Mode.absolute_y e found h (inr big) =
      parses_absolute_y beyond addr b1 b2 (mne ++ text) nl h1 h2 big
  reads text Mode.absolute e found h (inl short) = ground (arith, short)
  reads text Mode.absolute_x e found h (inl short) = ground (arith, short)
  reads text Mode.absolute_y e found h (inl short) = ground (arith, short)
  reads text Mode.ind_abs e found h wide = parses_ind_abs beyond addr b1 b2 (mne ++ text) nl h1 h2
  reads text Mode.index_ind e found h wide =
      parses_index_ind beyond addr b1 b2 (mne ++ text) nl h1 h2
  reads text Mode.ind_index e found h wide =
      parses_ind_index beyond addr b1 b2 (mne ++ text) nl h1 h2
  reads text Mode.relative e found h wide =
      parses_relative beyond addr b1 b2 (mne ++ text) nl h1 h2 small
        (has_false text Mode.zero_page (ground (arith, h))) (has_true text Mode.relative e found)

  -- The line of a row.
  assembled_row :
      (m : Mode) (r e : Entry)
      → in_table mne none ≡ some r
      → in_table mne (some m) ≡ some e
      → fits mne m ≡ true
      → (size m ≤ 2) ⊎ (b2 ≢ 0)
      → dasm_as beyond addr (mne ++ (tail_text m addr b1 b2 ++ line_end nl))
        ≡ done (size m) (code e.opcode b1 b2 (size m))
  assembled_row m r e known found fit wide =
      let text = map to_upper (tail_text m addr b1 b2 ++ line_end nl) in
      let operands : skip_whitespace (drop 3 (mne ++ text)) ≡ operand_line nl m addr b1 b2 =
        ap skip_whitespace (drop_word mne text word) ∙ skip_tail nl m addr b1 b2 in
      dasm_as-assemble beyond addr mne (tail_text m addr b1 b2 ++ line_end nl) word
        (tail_text-short m addr b1 b2 nl)
      ∙ assembled beyond addr (size m) (value_of m b1 b2) (mne ++ text) m r e
          (find_mne-append beyond mne text none word ∙ in_rows beyond mne none r known)
          (ap (parse_operand beyond addr (mne ++ text)) operands ∙ reads text m e found fit wide)
          (find_mne-append beyond mne text (some m) word ∙ in_rows beyond mne (some m) e found)
      ∙ ap (λ (bytes : List ℕ). done (size m) bytes) (emitted beyond e m b1 b2 h1 h2)

pub row_checked : (op : ℕ) → op < 256 → checked op (table_row op) ≡ true
row_checked op h = all_below_sound (λ n. checked n (table_row n)) 256 table_checked op h

pub text_of_row :
    (beyond : Entry) (addr op b1 b2 : ℕ) (e : Entry)
    → table_row op ≡ some e
    → dasm_das beyond addr op b1 b2 ≡ (e.mnemonic ++ tail_text e.mode addr b1 b2, size e.mode)
unfolding dasm_das entry_text
text_of_row beyond addr op b1 b2 e found =
    rw (find_opcode_lem beyond op, found, dasm_das)
      (ap (λ (n : ℕ). (e.mnemonic ++ tail_text e.mode addr b1 b2, n))
        (operand_text-size e.mode addr b1 b2))

module _ (beyond : Entry) (addr op b1 b2 : ℕ) (small : addr < 65536) (byte_op : op < 256)
    (h1 : b1 < 256) (h2 : b2 < 256) (stray : is_mnemonic beyond.mnemonic ≡ false) where
  row_roundtrip :
      (nl : Bool) (e : Entry)
      → row_ok op e ≡ true
      → (size e.mode ≤ 2) ⊎ (b2 ≢ 0)
      → dasm_as beyond addr (e.mnemonic ++ (tail_text e.mode addr b1 b2 ++ line_end nl))
        ≡ done (size e.mode) (code (assembled_as op) b1 b2 (size e.mode))
  unfolding row_ok
  row_roundtrip nl e ok wide =
      let (word, more) = and_split (is_word e.mnemonic) _ ok in
      let (known, rest) = and_split (is_found (in_table e.mnemonic none)) _ more in
      let (same, fit) =
        and_split (has_opcode (assembled_as op) (in_table e.mnemonic (some e.mode))) _ rest in
      let (r, is_r) = found_some _ known in
      let (e', is_e, opcode) = opcode_found _ _ same in
      assembled_row beyond addr b1 b2 e.mnemonic nl small h1 h2 stray word e.mode r e' is_r is_e fit
        wide
      ∙ ap (λ n. done (size e.mode) (code n b1 b2 (size e.mode))) opcode

  -- With or without a new line behind the text.
  pub dasm_as-line :
      (nl : Bool) (c : Case)
      → switch op ≡ some c
      → (size c.mode ≤ 2) ⊎ (b2 ≢ 0)
      → dasm_as beyond addr ((dasm_das beyond addr op b1 b2).0 ++ line_end nl)
        ≡ done (size c.mode) (code (assembled_as op) b1 b2 (size c.mode))
  dasm_as-line nl c known wide =
      let (e, found, same, _) =
        row_of_case op (table_row op) c (rw known at (agrees beyond op byte_op)) in
      let ok = subst (λ r. checked op r ≡ true) found (row_checked op byte_op) in
      ap (λ t. dasm_as beyond addr (t.0 ++ line_end nl)) (text_of_row beyond addr op b1 b2 e found)
      ∙ ap (dasm_as beyond addr)
          (append_assoc e.mnemonic (tail_text e.mode addr b1 b2) (line_end nl))
      ∙ subst
          (λ n.
            ((n ≤ 2) ⊎ (b2 ≢ 0))
            → dasm_as beyond addr (e.mnemonic ++ (tail_text e.mode addr b1 b2 ++ line_end nl))
              ≡ done n (code (assembled_as op) b1 b2 n))
          same (row_roundtrip nl e ok) wide

  -- The text of an instruction that the machine executes assembles to the bytes of the instruction
  -- again, where the opcode is the one of the first row with the same letters and addressing, which
  -- is another one for seven opcodes. It holds at every address, for all bytes behind the opcode,
  -- but that an operand of two bytes has a high byte other than 0, and what stands behind the table
  -- does not begin with three letters.
  pub dasm_as-dasm_das :
      (c : Case)
      → switch op ≡ some c
      → (size c.mode ≤ 2) ⊎ (b2 ≢ 0)
      → dasm_as beyond addr (dasm_das beyond addr op b1 b2).0
        ≡ done (size c.mode) (code (assembled_as op) b1 b2 (size c.mode))
  dasm_as-dasm_das c known wide =
      ap (dasm_as beyond addr) (sym (append-nil (dasm_das beyond addr op b1 b2).0))
      ∙ dasm_as-line false c known wide
