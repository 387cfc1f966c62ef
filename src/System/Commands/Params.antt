-- ===== src/System/Commands/Params.antt =====
-- What the parameters of a command mean.
use dan.Prelude.{
  ℕ, zero, suc, ◌+◌, ◌-◌, ◌/◌, ◌%◌, ◌<◌, ◌≡◌, ◌==◌, refl, ap, ap₂, ◌∙◌, arith, Bool-cases, inl, inr,
  true, some, List, Option, ◌∷◌, ◌++◌,
}
use dan.Memory.Sram.Flat.{replicate}
use dan.Dasm.Text.{hex2, hex4, is_xdigit, sscanf_x, span_length, skip_while}
use dan.Dasm.Hex.{hex_digit-IsHexDigit, no_digit, scan-hex4}
use dan.System.Commands.{chars, number_at, get_param, is_blank, counted}

skip_blanks :
    (k : ℕ) (s : List ℕ) → skip_while is_blank (replicate k 32 ++ s) ≡ skip_while is_blank s
unfolding skip_while replicate
skip_blanks zero s = refl
skip_blanks (suc k) s = skip_blanks k s

span_blanks :
    (k : ℕ) (s : List ℕ) → span_length is_blank (replicate k 32 ++ s) ≡ k + span_length is_blank s
unfolding span_length replicate
span_blanks zero s = omega arith
span_blanks (suc k) s = ap suc (span_blanks k s) ∙ omega arith

at_digits :
    (n : ℕ) (rest : List ℕ)
    → (skip_while is_blank (hex4 n ++ rest) ≡ hex4 n ++ rest)
      × (span_length is_blank (hex4 n ++ rest) ≡ 0)
unfolding hex4 hex2 skip_while span_length
at_digits n rest =
    let first = hex_digit-IsHexDigit (n / 256 / 16 % 16) (omega arith) in
    rw first.no_blank (refl, refl)

number_found :
    (s : List ℕ) (c : ℕ) (cs : List ℕ) (addr v : ℕ)
    → skip_while is_blank s ≡ c ∷ cs
    → sscanf_x (c ∷ cs) ≡ some v
    → get_param s addr ≡ some (counted (span_length is_blank s + span_length is_xdigit (c ∷ cs)), v)
unfolding get_param number_at
number_found s c cs addr v skipped scan = rw skipped (rw (scan, number_at) refl)

counted_some :
    (pt v : ℕ) → pt < 256 → ◌≡◌ {A = Option (ℕ × ℕ)} (some (counted pt, v)) (some (pt, v))
counted_some pt v h = ap (λ (j : ℕ). some (j, v)) (ground arith)

-- An address as `%04x` prints it, behind at most 251 spaces and before the end or a character that is
-- no digit, is read back by `get_param`, which returns the place behind it.
pub get_param-hex4 :
    (k n addr : ℕ) (rest : List ℕ)
    → n < 65536
    → k + 4 < 256
    → no_digit rest ≡ true
    → get_param (replicate k 32 ++ (hex4 n ++ rest)) addr ≡ some (k + 4, n)
unfolding hex4 hex2
get_param-hex4 k n addr rest h short end =
    let s = replicate k 32 ++ (hex4 n ++ rest) in
    let (skipped, spanned) = at_digits n rest in
    let behind : span_length is_blank s ≡ k =
      span_blanks k (hex4 n ++ rest) ∙ ap (λ (j : ℕ). k + j) spanned ∙ omega arith in
    number_found s _ _ addr n (skip_blanks k (hex4 n ++ rest) ∙ skipped) (scan-hex4 n rest h end).0
    ∙ ap₂ (λ (j l : ℕ). some (counted (j + l), n)) behind (scan-hex4 n rest h end).1
    ∙ counted_some (k + 4) n short

pub at_char :
    (n : ℕ) (buffer : ℕ → ℕ) (p c : ℕ) (cs : List ℕ)
    → chars n buffer p ≡ c ∷ cs
    → (buffer p ≡ c) × (chars (n - 1) buffer (p + 1) ≡ cs)
unfolding chars
at_char zero buffer p c cs h = cc
at_char (suc n) buffer p c cs h = elim (Bool-cases (buffer p == 0)) [
  | inl end ↦ ground (arith, h, end)
  | inr more ↦ ground (arith, h, more)
]
