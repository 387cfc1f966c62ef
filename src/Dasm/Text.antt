-- ===== src/Dasm/Text.antt =====
-- C strings as lists of codes without the final 0, and what dasm/dasm.c takes from ctype.h and
-- stdio.h: the tests on characters, `sprintf` of hexadecimal numbers and `sscanf` of one number.
-- `int` has sixteen bits, as on the AVR.
use dan.Prelude.{
  ℕ, suc, ◌+◌, ◌-◌, ◌*◌, ◌/◌, ◌%◌, Bool, ◌&&◌, ◌||◌, ltb, leb, ◌==◌, if◌then◌else◌, List, [], ◌∷◌,
  ◌++◌, Option, none, some, u16,
}

unfoldable pub is_space : ℕ → Bool
is_space c = c == 32 || leb 9 c && leb c 13

unfoldable pub is_digit : ℕ → Bool
is_digit c = leb b'0' c && leb c b'9'

unfoldable pub is_xdigit : ℕ → Bool
unfolding is_digit
is_xdigit c = is_digit c || (leb b'a' c && leb c b'f' || leb b'A' c && leb c b'F')

-- The value of a hexadecimal digit.
unfoldable pub digit_value : ℕ → ℕ
digit_value c = if leb c b'9' then c - b'0' else if leb c b'F' then c - 55 else c - 87

-- A digit of `%x`, in lower case.
unfoldable pub hex_digit : ℕ → ℕ
hex_digit n = if ltb n 10 then b'0' + n else 87 + n

-- `%02x` of a byte and `%04x` of a word.
unfoldable pub hex2 : ℕ → List ℕ
unfolding hex_digit
hex2 n = hex_digit (n / 16 % 16) ∷ hex_digit (n % 16) ∷ []

unfoldable pub hex4 : ℕ → List ℕ
unfolding hex2
hex4 n = hex2 (n / 256) ++ hex2 (n % 256)

-- The characters that pass a test, from the front, and how many they are.
unfoldable pub span_length : (ℕ → Bool) → List ℕ → ℕ
span_length p [] = 0
span_length p (c ∷ cs) = if p c then suc (span_length p cs) else 0

unfoldable pub skip_while : (ℕ → Bool) → List ℕ → List ℕ
skip_while p [] = []
skip_while p (c ∷ cs) = if p c then skip_while p cs else c ∷ cs

-- The digits read in a base, in a variable of sixteen bits.
unfoldable pub read_digits : ℕ → (ℕ → Bool) → ℕ → List ℕ → ℕ
unfolding digit_value
read_digits base p n [] = n
read_digits base p n (c ∷ cs) =
    if p c then read_digits base p (u16 (n * base + digit_value c)) cs else n

-- A number of at least one digit.
unfoldable pub scan_digits : ℕ → (ℕ → Bool) → List ℕ → Option ℕ
unfolding read_digits
scan_digits base p [] = none
scan_digits base p (c ∷ cs) = if p c then some (read_digits base p 0 (c ∷ cs)) else none

-- Behind the sign of `%x`, "0x" may stand before the digits.
unfoldable pub scan_prefixed : List ℕ → Option ℕ
unfolding scan_digits is_xdigit
scan_prefixed (z ∷ x ∷ cs) =
    if z == b'0' && (x == b'x' || x == b'X')
    then scan_digits 16 is_xdigit cs
    else scan_digits 16 is_xdigit (z ∷ x ∷ cs)
scan_prefixed cs = scan_digits 16 is_xdigit cs

-- An optional sign; a negative number is stored modulo 2 ^ 16.
unfoldable pub scan_signed : (List ℕ → Option ℕ) → List ℕ → Option ℕ
scan_signed scan [] = none
scan_signed scan (c ∷ cs) =
    if c == b'-'
    then (elim (scan cs) [ none ↦ none | some n ↦ some (u16 (65536 - n)) ])
    else if c == b'+'
    then scan cs
    else scan (c ∷ cs)

-- `sscanf(s, "%x", &v) == 1` and `sscanf(s, "%d", &v) == 1`, with the value.
unfoldable pub sscanf_x : List ℕ → Option ℕ
unfolding scan_signed scan_prefixed skip_while is_space
sscanf_x s = scan_signed scan_prefixed (skip_while is_space s)

unfoldable pub sscanf_d : List ℕ → Option ℕ
unfolding scan_signed scan_digits skip_while is_space is_digit
sscanf_d s = scan_signed (scan_digits 10 is_digit) (skip_while is_space s)

-- `%s`: the characters up to a 0.
unfoldable pub c_string : List ℕ → List ℕ
c_string [] = []
c_string (c ∷ cs) = let rest = c_string cs in if c == 0 then [] else c ∷ rest
