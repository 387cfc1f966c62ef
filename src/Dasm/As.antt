-- ===== src/Dasm/As.antt =====
-- `dasm_as` of dasm/dasm.c: one line of assembler. A pointer into the line is the rest of the line,
-- and the final 0 of a C string is the end of the list.
use dan.Prelude.{
  ℕ, zero, suc, ◌+◌, ◌-◌, ◌/◌, Bool, true, false, ◌&&◌, ◌||◌, ltb, leb, ◌==◌, if◌then◌else◌, List,
  [], ◌∷◌, ◌++◌, map, Option, none, some, u8, length,
}
use dan.Vm.Decode.{Mode}
use dan.Dasm.Table.{Entry}
use dan.Dasm.Find.{find_mne}
use dan.Dasm.Text.{is_space, is_digit, is_xdigit, skip_while, span_length, sscanf_x, sscanf_d}

-- `-1`, or the returned length with the bytes stored at `output`. `stuck` says that a loop never ends:
-- its `uint8_t` counter wraps before the end of the line, or the fuel of the model ran out.
pub data Assembled : Type 0 where
  error stuck : Assembled
  done : ℕ → List ℕ → Assembled

-- `*p`
abbrev pub char_at : List ℕ → ℕ
char_at [] = 0
char_at (c ∷ cs) = c

-- `p + n`
abbrev pub drop : ℕ → List ℕ → List ℕ
drop zero cs = cs
drop (suc n) [] = []
drop (suc n) (c ∷ cs) = drop n cs

unfoldable pub skip_whitespace : List ℕ → List ℕ
unfolding skip_while is_space
skip_whitespace = skip_while is_space

abbrev pub measured : ℕ → Option ℕ → Option (ℕ × ℕ)
measured n none = none
measured n (some v) = some (n, v)

-- The counter of `get_value` behind a `$`: at 256 it is back at the `$`, which is no digit.
abbrev pub wrapped : ℕ → ℕ
wrapped n = if ltb 255 n then 0 else n

-- Behind the `$`, which counts as a character too.
unfoldable pub hex_value : List ℕ → Option (ℕ × ℕ)
unfolding sscanf_x span_length is_xdigit
hex_value [] = none
hex_value (d ∷ ds) = measured (wrapped (suc (span_length is_xdigit (d ∷ ds)))) (sscanf_x (d ∷ ds))

-- `get_value` never returns on a decimal number of 256 digits or more: its counter comes back to the
-- first of them.
unfoldable pub is_endless : List ℕ → Bool
unfolding span_length is_digit
is_endless p = ltb 255 (span_length is_digit p)

-- The number of characters of the number and its value; `none` is `-1`. Where `is_endless` holds the
-- code does not return.
unfoldable pub get_value : List ℕ → Option (ℕ × ℕ)
unfolding hex_value sscanf_d span_length is_digit
get_value [] = none
get_value (c ∷ cs) =
    if c == b'$' then hex_value cs else measured (span_length is_digit (c ∷ cs)) (sscanf_d (c ∷ cs))

abbrev pub prepend : ℕ → Option (List ℕ × List ℕ) → Option (List ℕ × List ℕ)
prepend c none = none
prepend c (some (s, rest)) = some (c ∷ s, rest)

-- The loop of a quoted string, behind the first quote: the characters, and what follows the closing
-- quote. `\"` stands for a quote; any other backslash stands for itself.
unfoldable pub quoted : List ℕ → Option (List ℕ × List ℕ)
quoted [] = none
quoted (c ∷ []) = if c == b'"' then some ([], []) else none
quoted (c ∷ d ∷ cs) =
    let escaped = quoted cs in
    let plain = quoted (d ∷ cs) in
    if c == b'"'
    then some ([], d ∷ cs)
    else if c == 92 && d == b'"'
    then prepend d escaped
    else prepend c plain

-- The loop of the `.` command; `out` is what is stored so far.
unfoldable pub dot_items : ℕ → List ℕ → List ℕ → Assembled
unfolding quoted get_value is_endless skip_whitespace is_digit
dot_items zero out p = stuck
dot_items (suc fuel) out [] = done (u8 (length out)) out
dot_items (suc fuel) out (c ∷ cs) =
    let next = dot_items fuel in
    if c == b'"'
    then (elim (quoted cs) [
      | none ↦ error
      | some (s, rest) ↦ next (out ++ s) (skip_whitespace rest)
    ])
    else if is_endless (c ∷ cs)
    then stuck
    else if is_digit c || c == b'$'
    then (elim (get_value (c ∷ cs)) [
      | none ↦ error
      | some (n, v) ↦
          if ltb 0xff v then error else next (out ++ v ∷ []) (skip_whitespace (drop n (c ∷ cs)))
    ])
    else if c == b','
    then next out (skip_whitespace cs)
    else error

unfoldable pub to_upper : ℕ → ℕ
to_upper c = if leb b'a' c && leb c b'z' then c - 32 else c

-- What the switch on the operand finds.
pub record Operand : Type 0 where
  pub mode : Mode
  pub len : ℕ
  pub val : ℕ

abbrev pub operand : Mode → ℕ → ℕ → Option Operand
operand m n v = some (record { mode = m; len = n; val = v })

-- A test whose failure returns -1.
abbrev pub require {ℓ} : {A : Type ℓ} → Bool → Option A → Option A
require b k = if b then k else none

-- `*p == 0`
abbrev pub at_end : List ℕ → Bool
at_end [] = true
at_end (c ∷ cs) = false

unfoldable pub after_paren : ℕ → List ℕ → Option Operand
after_paren val p =
    if char_at p == b')'
    then (let q = skip_whitespace (drop 1 p) in
        if at_end q
        then operand Mode.ind_abs 3 val
        else require (char_at q == b',') (
            require (char_at (drop 1 q) == b'Y') (
              require (at_end (skip_whitespace (drop 2 q)))
                (require (leb val 0xff) (operand Mode.ind_index 2 val)))))
    else if char_at p == b','
    then (let q = skip_whitespace (drop 1 p) in
        require (char_at q == b'X') (
          let r = skip_whitespace (drop 1 q) in
          require (char_at r == b')') (
            require (at_end (skip_whitespace (drop 1 r)))
              (require (leb val 0xff) (operand Mode.index_ind 2 val)))))
    else operand Mode.implied 0 val

module _ (beyond : Entry) where
  abbrev pub has_mode : List ℕ → Mode → Bool
  has_mode mne m = elim (find_mne beyond mne (some m)) [ none ↦ false | some _ ↦ true ]

  -- The zero page form where the value fits and the mnemonic has it, else the absolute form.
  unfoldable pub indexed : List ℕ → ℕ → Mode → Mode → Option Operand
  indexed mne val zp abs =
      if leb val 0xff && has_mode mne zp then operand zp 2 val else operand abs 3 val

  -- A number with nothing before it. The test `val > 0xff` on the branch offset never holds, since
  -- the offset has been cut to a byte.
  unfoldable pub after_number : ℕ → List ℕ → ℕ → List ℕ → Option Operand
  after_number addr mne val p =
      if at_end p
      then (if leb val 0xff && has_mode mne Mode.zero_page
          then operand Mode.zero_page 2 val
          else if has_mode mne Mode.relative
          then operand Mode.relative 2 (u8 (val + 65536 + 65536 - addr - 1))
          else operand Mode.absolute 3 val)
      else if char_at p == b','
      then (let q = skip_whitespace (drop 1 p) in
          let rest = at_end (skip_whitespace (drop 1 q)) in
          if char_at q == b'X'
          then require rest (indexed mne val Mode.zero_page_x Mode.absolute_x)
          else if char_at q == b'Y'
          then require rest (indexed mne val Mode.zero_page_y Mode.absolute_y)
          else none)
      else none

  -- The switch on the first character of the operand.
  unfoldable pub parse_operand : ℕ → List ℕ → List ℕ → Option Operand
  parse_operand addr mne p =
      if at_end p
      then operand Mode.implied 1 0
      else if char_at p == b'A'
      then require (at_end (skip_whitespace (drop 1 p))) (operand Mode.accumulator 1 0)
      else if char_at p == b'#'
      then (elim (get_value (drop 1 p)) [
        | none ↦ none
        | some (n, v) ↦
            require (leb v 0xff)
              (require (at_end (skip_whitespace (drop n (drop 1 p)))) (operand Mode.immediate 2 v))
      ])
      else if char_at p == b'('
      then (elim (get_value (drop 1 p)) [
        | none ↦ none
        | some (n, v) ↦ after_paren v (skip_whitespace (drop n (drop 1 p)))
      ])
      else if is_digit (char_at p) || char_at p == b'$'
      then (elim (get_value p) [
        | none ↦ none
        | some (n, v) ↦ after_number addr mne v (skip_whitespace (drop n p))
      ])
      else none

  -- The opcode is stored whatever the length.
  unfoldable pub emit_op : Entry → ℕ → ℕ → List ℕ
  emit_op e val len =
      e.opcode
      ∷ ((if ltb 1 len then u8 val ∷ [] else []) ++ (if ltb 2 len then u8 (val / 256) ∷ [] else []))

  -- The part of `dasm_as` behind the `.` command, on the rest of the line in upper case.
  unfoldable pub assemble : ℕ → List ℕ → Assembled
  assemble addr mne = elim (find_mne beyond mne none) [
    | none ↦ error
    | some _ ↦ elim (parse_operand addr mne (skip_whitespace (drop 3 mne))) [
      | none ↦ error
      | some o ↦ elim (find_mne beyond mne (some o.mode)) [
        | none ↦ error
        | some e ↦ done o.len (emit_op e o.val o.len)
      ]
    ]
  ]

  -- The loop that turns the line to upper case counts in a `uint8_t`: it never ends on 256 characters
  -- or more.
  unfoldable pub dasm_as : ℕ → List ℕ → Assembled
  dasm_as addr input =
      let p = skip_whitespace input in
      if at_end p
      then error
      else if char_at p == b'.'
      then (if at_end (drop 1 p) then error else dot_items (suc (length p)) [] (drop 1 p))
      else if ltb (length p) 3
      then error
      else if ltb 255 (length p)
      then stuck
      else assemble addr (map to_upper p)
