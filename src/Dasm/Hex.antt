-- ===== src/Dasm/Hex.antt =====
-- Numbers in hexadecimal digits: what `%02x` and `%04x` print, `%x` reads back.
use dan.Prelude.{
  ℕ, suc, ◌+◌, ◌*◌, ◌/◌, ◌%◌, ◌<◌, ◌≡◌, ◌==◌, ◌&&◌, ◌||◌, refl, ap, ◌∙◌, arith, u16, not, Bool,
  true, false, some, List, [], ◌∷◌, ◌++◌, map,
}
use dan.Dasm.Text.{
  hex_digit, hex2, hex4, digit_value, is_digit, is_xdigit, is_space, read_digits, scan_digits,
  scan_prefixed, scan_signed, sscanf_x, span_length, skip_while,
}
use dan.Dasm.As.{to_upper}

-- What the parser asks of a digit that `%x` prints.
pub record IsHexDigit (c d : ℕ) : Type 0 where
  pub value : digit_value c ≡ d
  pub xdigit : is_xdigit c ≡ true
  pub no_space : is_space c ≡ false
  pub no_blank : (c == 32) ≡ false
  pub no_minus : (c == b'-') ≡ false
  pub no_plus : (c == b'+') ≡ false
  pub no_x : (c == b'x' || c == b'X') ≡ false

pub hex_digit-IsHexDigit : (d : ℕ) → d < 16 → IsHexDigit (hex_digit d) d
unfolding hex_digit digit_value is_xdigit is_digit is_space
hex_digit-IsHexDigit d h = record {
  value = ground arith;
  xdigit = ground arith;
  no_space = ground arith;
  no_blank = ground arith;
  no_minus = ground arith;
  no_plus = ground arith;
  no_x = ground arith;
}

-- What stands behind a number: the end, or a character that is no digit.
abbrev pub no_digit : List ℕ → Bool
no_digit [] = true
no_digit (c ∷ cs) = not (is_xdigit c)

digits_end : (v : ℕ) (rest : List ℕ) → no_digit rest ≡ true → read_digits 16 is_xdigit v rest ≡ v
unfolding read_digits
digits_end v [] h = refl
digits_end v (c ∷ cs) h = let stops : is_xdigit c ≡ false = ground (arith, h) in rw stops refl

next_digit :
    (c d v : ℕ) (cs : List ℕ)
    → IsHexDigit c d
    → read_digits 16 is_xdigit v (c ∷ cs) ≡ read_digits 16 is_xdigit (u16 (v * 16 + d)) cs
unfolding read_digits
next_digit c d v cs h = rw h.xdigit (rw h.value refl)

scanned :
    (c c' d : ℕ) (cs : List ℕ)
    → IsHexDigit c d
    → (c' == b'x' || c' == b'X') ≡ false
    → sscanf_x (c ∷ c' ∷ cs) ≡ some (read_digits 16 is_xdigit 0 (c ∷ c' ∷ cs))
unfolding sscanf_x skip_while scan_signed scan_prefixed scan_digits
scanned c c' d cs h no_x =
    let plain : (c == b'0' && (c' == b'x' || c' == b'X')) ≡ false = rw no_x (ground arith) in
    rw h.no_space (rw h.no_minus (rw h.no_plus (rw plain (rw h.xdigit refl))))

-- In upper case too.
pub upper-IsHexDigit : (d : ℕ) → d < 16 → IsHexDigit (to_upper (hex_digit d)) d
unfolding to_upper hex_digit digit_value is_xdigit is_digit is_space
upper-IsHexDigit d h = record {
  value = ground arith;
  xdigit = ground arith;
  no_space = ground arith;
  no_blank = ground arith;
  no_minus = ground arith;
  no_plus = ground arith;
  no_x = ground arith;
}

no_more : (rest : List ℕ) → no_digit rest ≡ true → span_length is_xdigit rest ≡ 0
unfolding span_length
no_more [] h = refl
no_more (c ∷ cs) h = let stops : is_xdigit c ≡ false = ground (arith, h) in rw stops refl

span_more :
    (c d : ℕ) (cs : List ℕ)
    → IsHexDigit c d
    → span_length is_xdigit (c ∷ cs) ≡ suc (span_length is_xdigit cs)
unfolding span_length
span_more c d cs h = rw h.xdigit refl

-- Two digits and what is no digit.
pub two_digits :
    (c1 c0 d1 d0 : ℕ) (rest : List ℕ)
    → IsHexDigit c1 d1
    → IsHexDigit c0 d0
    → d1 < 16
    → d0 < 16
    → no_digit rest ≡ true
    → (sscanf_x (c1 ∷ c0 ∷ rest) ≡ some (d1 * 16 + d0))
      × (span_length is_xdigit (c1 ∷ c0 ∷ rest) ≡ 2)
two_digits c1 c0 d1 d0 rest h1 h0 s1 s0 end = (
  scanned c1 c0 d1 rest h1 h0.no_x
      ∙ ap (λ (v : ℕ). some v)
          (next_digit c1 d1 0 (c0 ∷ rest) h1
            ∙ next_digit c0 d0 (u16 (0 * 16 + d1)) rest h0
            ∙ digits_end (u16 (u16 (0 * 16 + d1) * 16 + d0)) rest end
            ∙ omega arith),
  span_more c1 d1 (c0 ∷ rest) h1 ∙ ap suc (span_more c0 d0 rest h0 ∙ ap suc (no_more rest end)),
)

-- Four digits and what is no digit.
pub four_digits :
    (c3 c2 c1 c0 d3 d2 d1 d0 : ℕ) (rest : List ℕ)
    → IsHexDigit c3 d3
    → IsHexDigit c2 d2
    → IsHexDigit c1 d1
    → IsHexDigit c0 d0
    → d3 < 16
    → d2 < 16
    → d1 < 16
    → d0 < 16
    → no_digit rest ≡ true
    → (sscanf_x (c3 ∷ c2 ∷ c1 ∷ c0 ∷ rest) ≡ some (((d3 * 16 + d2) * 16 + d1) * 16 + d0))
      × (span_length is_xdigit (c3 ∷ c2 ∷ c1 ∷ c0 ∷ rest) ≡ 4)
four_digits c3 c2 c1 c0 d3 d2 d1 d0 rest h3 h2 h1 h0 s3 s2 s1 s0 end = (
  scanned c3 c2 d3 (c1 ∷ c0 ∷ rest) h3 h2.no_x
      ∙ ap (λ (v : ℕ). some v)
          (next_digit c3 d3 0 (c2 ∷ c1 ∷ c0 ∷ rest) h3
            ∙ next_digit c2 d2 (u16 (0 * 16 + d3)) (c1 ∷ c0 ∷ rest) h2
            ∙ next_digit c1 d1 (u16 (u16 (0 * 16 + d3) * 16 + d2)) (c0 ∷ rest) h1
            ∙ next_digit c0 d0 (u16 (u16 (u16 (0 * 16 + d3) * 16 + d2) * 16 + d1)) rest h0
            ∙ digits_end (u16 (u16 (u16 (u16 (0 * 16 + d3) * 16 + d2) * 16 + d1) * 16 + d0)) rest
                end
            ∙ omega arith),
  span_more c3 d3 (c2 ∷ c1 ∷ c0 ∷ rest) h3
      ∙ ap suc (
          span_more c2 d2 (c1 ∷ c0 ∷ rest) h2
          ∙ ap suc (
              span_more c1 d1 (c0 ∷ rest) h1
              ∙ ap suc (span_more c0 d0 rest h0 ∙ ap suc (no_more rest end)))),
)

-- What `%02x` prints of a byte, and `%04x` of an address.
pub scan-hex2 :
    (v : ℕ) (rest : List ℕ)
    → v < 256
    → no_digit rest ≡ true
    → (sscanf_x (hex2 v ++ rest) ≡ some v) × (span_length is_xdigit (hex2 v ++ rest) ≡ 2)
unfolding hex2
scan-hex2 v rest h end =
    let (value, span) =
      two_digits _ _ (v / 16 % 16) (v % 16) rest (hex_digit-IsHexDigit (v / 16 % 16) (omega arith))
        (hex_digit-IsHexDigit (v % 16) (omega arith)) (omega arith) (omega arith) end in
    (value ∙ ap (λ (n : ℕ). some n) (omega arith), span)

pub scan-hex4 :
    (n : ℕ) (rest : List ℕ)
    → n < 65536
    → no_digit rest ≡ true
    → (sscanf_x (hex4 n ++ rest) ≡ some n) × (span_length is_xdigit (hex4 n ++ rest) ≡ 4)
unfolding hex4 hex2
scan-hex4 n rest h end =
    let (value, span) =
      four_digits _ _ _ _ (n / 256 / 16 % 16) (n / 256 % 16) (n % 256 / 16 % 16) (n % 256 % 16) rest
        (hex_digit-IsHexDigit _ (omega arith)) (hex_digit-IsHexDigit _ (omega arith))
        (hex_digit-IsHexDigit _ (omega arith)) (hex_digit-IsHexDigit _ (omega arith)) (omega arith)
        (omega arith) (omega arith) (omega arith) end in
    (value ∙ ap (λ (n : ℕ). some n) (omega arith), span)

-- The same in upper case, as `dasm_as` sees it.
pub scan-upper2 :
    (v : ℕ) (rest : List ℕ)
    → v < 256
    → no_digit rest ≡ true
    → (sscanf_x (map to_upper (hex2 v) ++ rest) ≡ some v)
      × (span_length is_xdigit (map to_upper (hex2 v) ++ rest) ≡ 2)
unfolding hex2
scan-upper2 v rest h end =
    let (value, span) =
      two_digits _ _ (v / 16 % 16) (v % 16) rest (upper-IsHexDigit (v / 16 % 16) (omega arith))
        (upper-IsHexDigit (v % 16) (omega arith)) (omega arith) (omega arith) end in
    (value ∙ ap (λ (n : ℕ). some n) (omega arith), span)

pub scan-upper4 :
    (n : ℕ) (rest : List ℕ)
    → n < 65536
    → no_digit rest ≡ true
    → (sscanf_x (map to_upper (hex4 n) ++ rest) ≡ some n)
      × (span_length is_xdigit (map to_upper (hex4 n) ++ rest) ≡ 4)
unfolding hex4 hex2
scan-upper4 n rest h end =
    let (value, span) =
      four_digits _ _ _ _ (n / 256 / 16 % 16) (n / 256 % 16) (n % 256 / 16 % 16) (n % 256 % 16) rest
        (upper-IsHexDigit _ (omega arith)) (upper-IsHexDigit _ (omega arith))
        (upper-IsHexDigit _ (omega arith)) (upper-IsHexDigit _ (omega arith)) (omega arith)
        (omega arith) (omega arith) (omega arith) end in
    (value ∙ ap (λ (n : ℕ). some n) (omega arith), span)
