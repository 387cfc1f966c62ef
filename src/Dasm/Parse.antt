-- ===== src/Dasm/Parse.antt =====
-- The operands that `dasm_das` prints, as the switch of `dasm_as` reads them.
use dan.Prelude.{
  ℕ, ◌+◌, ◌*◌, ◌<◌, ◌≡◌, ◌≢◌, refl, ◌∙◌, arith, u16, Bool, true, false, some, List, [], ◌∷◌, ◌++◌,
  map, ltb, if◌then◌else◌,
}
use dan.Bits.{bit_or_fields}
use dan.Vm.Flags.{addr16}
use dan.Vm.Decode.{Mode, size}
use dan.Dasm.Table.{Entry}
use dan.Dasm.Text.{hex2, hex4, is_space, is_digit, is_xdigit, skip_while}
use dan.Dasm.Das.{operand_text}
use dan.Dasm.As.{
  to_upper, get_value, hex_value, skip_whitespace, parse_operand, after_paren, after_number,
  indexed, has_mode, operand,
}
use dan.Dasm.Hex.{no_digit, scan-upper2, scan-upper4}

value2 :
    (v : ℕ) (rest : List ℕ)
    → v < 256
    → no_digit rest ≡ true
    → get_value (b'$' ∷ (map to_upper (hex2 v) ++ rest)) ≡ some (3, v)
unfolding get_value hex_value hex2
value2 v rest h end = let (value, span) = scan-upper2 v rest h end in rw value (rw span refl)

value4 :
    (n : ℕ) (rest : List ℕ)
    → n < 65536
    → no_digit rest ≡ true
    → get_value (b'$' ∷ (map to_upper (hex4 n) ++ rest)) ≡ some (5, n)
unfolding get_value hex_value hex4 hex2
value4 n rest h end = let (value, span) = scan-upper4 n rest h end in rw value (rw span refl)

-- The operand in upper case.
abbrev pub printed : Mode → ℕ → ℕ → ℕ → List ℕ
printed m addr b1 b2 = map to_upper (operand_text m addr b1 b2).0

addr16_lem : (b1 b2 : ℕ) → b1 < 256 → addr16 b1 b2 ≡ b1 + b2 * 256
unfolding addr16
addr16_lem b1 b2 h = bit_or_fields 8 b2 b1 h

-- The value of an operand.
unfoldable pub value_of : Mode → ℕ → ℕ → ℕ
value_of Mode.implied b1 b2 = 0
value_of Mode.accumulator b1 b2 = 0
value_of Mode.absolute b1 b2 = b1 + b2 * 256
value_of Mode.absolute_x b1 b2 = b1 + b2 * 256
value_of Mode.absolute_y b1 b2 = b1 + b2 * 256
value_of Mode.ind_abs b1 b2 = b1 + b2 * 256
value_of _ b1 b2 = b1

-- Nothing, or the new line that `fgets` leaves.
abbrev pub line_end : Bool → List ℕ
line_end nl = if nl then 10 ∷ [] else []

-- What the switch reads: the operand and the end of the line, behind the blanks.
abbrev pub operand_line : Bool → Mode → ℕ → ℕ → ℕ → List ℕ
operand_line nl Mode.implied addr b1 b2 = []
operand_line nl m addr b1 b2 = printed m addr b1 b2 ++ line_end nl

no_digit-line_end : (nl : Bool) → no_digit (line_end nl) ≡ true
unfolding is_xdigit is_digit
no_digit-line_end nl = ground arith

module _ (beyond : Entry) (addr : ℕ) (mne : List ℕ) where
  immediate_text :
      (p q v : ℕ) (nl : Bool)
      → v < 256
      → get_value (b'$' ∷ p ∷ q ∷ line_end nl) ≡ some (3, v)
      → parse_operand beyond addr mne (b'#' ∷ b'$' ∷ p ∷ q ∷ line_end nl)
        ≡ operand Mode.immediate 2 v
  unfolding parse_operand skip_whitespace skip_while is_space
  immediate_text p q v nl h e = rw e (ground arith)

  number_text :
      (p q v : ℕ) (rest : List ℕ)
      → get_value (b'$' ∷ p ∷ q ∷ rest) ≡ some (3, v)
      → parse_operand beyond addr mne (b'$' ∷ p ∷ q ∷ rest)
        ≡ after_number beyond addr mne v (skip_whitespace rest)
  unfolding parse_operand is_digit
  number_text p q v rest e = rw e refl

  long_text :
      (p q r s v : ℕ) (rest : List ℕ)
      → get_value (b'$' ∷ p ∷ q ∷ r ∷ s ∷ rest) ≡ some (5, v)
      → parse_operand beyond addr mne (b'$' ∷ p ∷ q ∷ r ∷ s ∷ rest)
        ≡ after_number beyond addr mne v (skip_whitespace rest)
  unfolding parse_operand is_digit
  long_text p q r s v rest e = rw e refl

  paren_text :
      (p q v : ℕ) (rest : List ℕ)
      → get_value (b'$' ∷ p ∷ q ∷ rest) ≡ some (3, v)
      → parse_operand beyond addr mne (b'(' ∷ b'$' ∷ p ∷ q ∷ rest)
        ≡ after_paren v (skip_whitespace rest)
  unfolding parse_operand
  paren_text p q v rest e = rw e refl

  long_paren_text :
      (p q r s v : ℕ) (rest : List ℕ)
      → get_value (b'$' ∷ p ∷ q ∷ r ∷ s ∷ rest) ≡ some (5, v)
      → parse_operand beyond addr mne (b'(' ∷ b'$' ∷ p ∷ q ∷ r ∷ s ∷ rest)
        ≡ after_paren v (skip_whitespace rest)
  unfolding parse_operand
  long_paren_text p q r s v rest e = rw e refl

module _ (beyond : Entry) (addr b1 b2 : ℕ) (mne : List ℕ) (nl : Bool) (h1 : b1 < 256)
    (h2 : b2 < 256) where
  abbrev pub has : Mode → Bool
  has m = has_mode beyond mne m

  abbrev pub Reads : Mode → Type 0
  Reads m =
      parse_operand beyond addr mne (operand_line nl m addr b1 b2)
      ≡ operand m (size m) (value_of m b1 b2)

  pub parses_implied : Reads Mode.implied
  unfolding parse_operand operand_text value_of size
  parses_implied = refl

  pub parses_accumulator : Reads Mode.accumulator
  unfolding parse_operand operand_text value_of size skip_whitespace skip_while to_upper
  parses_accumulator = ground arith

  pub parses_immediate : Reads Mode.immediate
  unfolding operand_text value_of size hex2 to_upper
  parses_immediate =
      immediate_text beyond addr mne _ _ b1 nl h1
        (value2 b1 (line_end nl) h1 (no_digit-line_end nl))

  pub parses_zero_page : has Mode.zero_page ≡ true → Reads Mode.zero_page
  unfolding operand_text value_of size skip_whitespace skip_while is_space hex2 to_upper
      after_number is_xdigit is_digit
  parses_zero_page zp =
      number_text beyond addr mne _ _ b1 (line_end nl)
        (value2 b1 (line_end nl) h1 (no_digit-line_end nl))
      ∙ rw zp (ground arith)

  pub parses_zero_page_x : has Mode.zero_page_x ≡ true → Reads Mode.zero_page_x
  unfolding operand_text value_of size skip_whitespace skip_while is_space hex2 to_upper
      after_number indexed is_xdigit is_digit
  parses_zero_page_x zp =
      number_text beyond addr mne _ _ b1 (b',' ∷ b'X' ∷ line_end nl)
        (value2 b1 (b',' ∷ b'X' ∷ line_end nl) h1 refl)
      ∙ rw zp (ground arith)

  pub parses_zero_page_y : has Mode.zero_page_y ≡ true → Reads Mode.zero_page_y
  unfolding operand_text value_of size skip_whitespace skip_while is_space hex2 to_upper
      after_number indexed is_xdigit is_digit
  parses_zero_page_y zp =
      number_text beyond addr mne _ _ b1 (b',' ∷ b'Y' ∷ line_end nl)
        (value2 b1 (b',' ∷ b'Y' ∷ line_end nl) h1 refl)
      ∙ rw zp (ground arith)

  pub parses_absolute : b2 ≢ 0 → has Mode.relative ≡ false → Reads Mode.absolute
  unfolding operand_text value_of size skip_whitespace skip_while is_space hex4 hex2 to_upper
      after_number is_xdigit is_digit
  parses_absolute big no_branch =
      let n = addr16 b1 b2 in
      let e = addr16_lem b1 b2 h1 in
      long_text beyond addr mne _ _ _ _ n (line_end nl)
        (value4 n (line_end nl) (omega (arith, e)) (no_digit-line_end nl))
      ∙ rw (e, no_branch) (ground arith)

  pub parses_absolute_x : b2 ≢ 0 → Reads Mode.absolute_x
  unfolding operand_text value_of size skip_whitespace skip_while is_space hex4 hex2 to_upper
      after_number indexed is_xdigit is_digit
  parses_absolute_x big =
      let n = addr16 b1 b2 in
      let e = addr16_lem b1 b2 h1 in
      long_text beyond addr mne _ _ _ _ n (b',' ∷ b'X' ∷ line_end nl)
        (value4 n (b',' ∷ b'X' ∷ line_end nl) (omega (arith, e)) refl)
      ∙ rw e (ground arith)

  pub parses_absolute_y : b2 ≢ 0 → Reads Mode.absolute_y
  unfolding operand_text value_of size skip_whitespace skip_while is_space hex4 hex2 to_upper
      after_number indexed is_xdigit is_digit
  parses_absolute_y big =
      let n = addr16 b1 b2 in
      let e = addr16_lem b1 b2 h1 in
      long_text beyond addr mne _ _ _ _ n (b',' ∷ b'Y' ∷ line_end nl)
        (value4 n (b',' ∷ b'Y' ∷ line_end nl) (omega (arith, e)) refl)
      ∙ rw e (ground arith)

  pub parses_ind_abs : Reads Mode.ind_abs
  unfolding operand_text value_of size skip_whitespace skip_while is_space hex4 hex2 to_upper
      after_paren is_xdigit is_digit
  parses_ind_abs =
      let n = addr16 b1 b2 in
      let e = addr16_lem b1 b2 h1 in
      long_paren_text beyond addr mne _ _ _ _ n (b')' ∷ line_end nl)
        (value4 n (b')' ∷ line_end nl) (omega (arith, e)) refl)
      ∙ rw e (ground arith)

  pub parses_index_ind : Reads Mode.index_ind
  unfolding operand_text value_of size skip_whitespace skip_while is_space hex2 to_upper after_paren
      is_xdigit is_digit
  parses_index_ind =
      paren_text beyond addr mne _ _ b1 (b',' ∷ b'X' ∷ b')' ∷ line_end nl)
        (value2 b1 (b',' ∷ b'X' ∷ b')' ∷ line_end nl) h1 refl)
      ∙ ground arith

  pub parses_ind_index : Reads Mode.ind_index
  unfolding operand_text value_of size skip_whitespace skip_while is_space hex2 to_upper after_paren
      is_xdigit is_digit
  parses_ind_index =
      paren_text beyond addr mne _ _ b1 (b')' ∷ b',' ∷ b'Y' ∷ line_end nl)
        (value2 b1 (b')' ∷ b',' ∷ b'Y' ∷ line_end nl) h1 refl)
      ∙ ground arith

  pub parses_relative :
      addr < 65536 → has Mode.zero_page ≡ false → has Mode.relative ≡ true → Reads Mode.relative
  unfolding operand_text value_of size skip_whitespace skip_while is_space hex4 hex2 to_upper
      after_number is_xdigit is_digit
  parses_relative small no_zp branches =
      let n = u16 (addr + 1 + (if ltb b1 128 then b1 else b1 + 65280)) in
      long_text beyond addr mne _ _ _ _ n (line_end nl)
        (value4 n (line_end nl) (omega arith) (no_digit-line_end nl))
      ∙ rw (no_zp, branches) (ground arith)
