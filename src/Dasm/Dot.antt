-- ===== src/Dasm/Dot.antt =====
-- `dasm_as` ends on lines of fewer than 256 characters: no `uint8_t` counter wraps, and the fuel that
-- the loop of the `.` command is given is enough.
use dan.Prelude.{
  ℕ, zero, suc, ◌≤◌, ◌<◌, ◌≡◌, ◌≢◌, ◌==◌, ◌||◌, ◌&&◌, Bool, true, false, Bool-cases, inl, inr,
  both_branches, if◌then◌else◌, arith, List, [], ◌∷◌, ◌++◌, ltb, map, Option, none, some, length,
}
use dan.Dasm.Table.{Entry}
use dan.Dasm.Find.{find_mne}
use dan.Dasm.Text.{is_space, is_digit, skip_while, span_length, is_xdigit, sscanf_d, sscanf_x}
use dan.Dasm.As.{
  Assembled, stuck, error, done, drop, prepend, measured, hex_value, skip_whitespace, get_value,
  wrapped, is_endless, quoted, dot_items, char_at, at_end, assemble, dasm_as, emit_op, to_upper,
  parse_operand,
}

skip_while-le : (p : ℕ → Bool) (cs : List ℕ) → length (skip_while p cs) ≤ length cs
unfolding skip_while
skip_while-le p [] = omega arith
skip_while-le p (c ∷ cs) = ground (arith, skip_while-le p cs)

skip_whitespace-le : (cs : List ℕ) → length (skip_whitespace cs) ≤ length cs
unfolding skip_whitespace
skip_whitespace-le cs = skip_while-le is_space cs

drop-le : (n : ℕ) (cs : List ℕ) → length (drop n cs) ≤ length cs
drop-le zero cs = omega arith
drop-le (suc n) [] = omega arith
drop-le (suc n) (c ∷ cs) = omega (arith, drop-le n cs)

drop-lt : (n c : ℕ) (cs : List ℕ) → 1 ≤ n → length (drop n (c ∷ cs)) ≤ length cs
drop-lt zero c cs h = absurd (omega arith)
drop-lt (suc n) c cs h = drop-le n cs

-- What follows a quoted string, if there is one, has fewer than `n` characters.
abbrev EndsBelow : ℕ → Option (List ℕ × List ℕ) → Type 0
EndsBelow n none = Unit {0}
EndsBelow n (some (s, rest)) = length rest < n

EndsBelow-prepend :
    (n m c : ℕ) (o : Option (List ℕ × List ℕ)) → n ≤ m → EndsBelow n o → EndsBelow m (prepend c o)
EndsBelow-prepend n m c none h k = tt
EndsBelow-prepend n m c (some (s, rest)) h k = omega arith

quoted-EndsBelow : (cs : List ℕ) → EndsBelow (length cs) (quoted cs)
unfolding quoted
quoted-EndsBelow [] = tt
quoted-EndsBelow (c ∷ []) = both_branches (EndsBelow 1) (c == b'"') (omega arith) tt
quoted-EndsBelow (c ∷ d ∷ cs) = both_branches (EndsBelow _) (c == b'"') (omega arith) (
    both_branches (EndsBelow _) (c == 92 && d == b'"')
      (EndsBelow-prepend (length cs) _ d (quoted cs) (omega arith) (quoted-EndsBelow cs))
      (EndsBelow-prepend (suc (length cs)) _ c (quoted (d ∷ cs)) (omega arith)
        (quoted-EndsBelow (d ∷ cs))))

span_length-le : (p : ℕ → Bool) (cs : List ℕ) → span_length p cs ≤ length cs
unfolding span_length
span_length-le p [] = omega arith
span_length-le p (c ∷ cs) = ground (arith, span_length-le p cs)

-- A number that is read has a character at least.
abbrev TakesOne : Option (ℕ × ℕ) → Type 0
TakesOne none = Unit {0}
TakesOne (some (n, v)) = 1 ≤ n

TakesOne-measured : (n : ℕ) (o : Option ℕ) → 1 ≤ n → TakesOne (measured n o)
TakesOne-measured n none h = tt
TakesOne-measured n (some v) h = h

wrapped-pos : (n : ℕ) → n < 255 → 1 ≤ wrapped (suc n)
wrapped-pos n h = ground arith

TakesOne-hex_value : (cs : List ℕ) → length cs < 255 → TakesOne (hex_value cs)
unfolding hex_value
TakesOne-hex_value [] h = tt
TakesOne-hex_value (d ∷ ds) h = TakesOne-measured _ (sscanf_x (d ∷ ds)) (
    wrapped-pos (span_length is_xdigit (d ∷ ds)) (omega (arith, span_length-le is_xdigit (d ∷ ds))))

not_endless : (p : List ℕ) → length p < 256 → is_endless p ≡ false
unfolding is_endless
not_endless p h = ground (arith, span_length-le is_digit p)

span_length-pos : (c : ℕ) (cs : List ℕ) → is_digit c ≡ true → 1 ≤ span_length is_digit (c ∷ cs)
unfolding span_length
span_length-pos c cs h = rw h (omega arith)

get_value-TakesOne :
    (c : ℕ) (cs : List ℕ)
    → length cs < 255
    → (is_digit c || c == b'$') ≡ true
    → TakesOne (get_value (c ∷ cs))
unfolding get_value
get_value-TakesOne c cs short h = elim (Bool-cases (c == b'$')) [
  | inl hex ↦ rw hex (TakesOne-hex_value cs short)
  | inr other ↦
      rw other (TakesOne-measured _ (sscanf_d (c ∷ cs)) (span_length-pos c cs (ground arith)))
]

-- One round of the loop goes on with a shorter rest.
abbrev Ends : Assembled → Type 0
Ends r = r ≢ stuck

Ends-error : Ends error
Ends-error h = cc

Ends-string :
    (n : ℕ) (k : List ℕ → List ℕ → Assembled) (o : Option (List ℕ × List ℕ))
    → EndsBelow n o
    → ((s rest : List ℕ) → length rest < n → Ends (k s rest))
    → Ends (elim o as (λ _. Assembled) [ none ↦ error | some (s, rest) ↦ k s rest ])
Ends-string n k none h next = Ends-error
Ends-string n k (some (s, rest)) h next = next s rest h

Ends-number :
    (k : ℕ → ℕ → Assembled) (o : Option (ℕ × ℕ))
    → TakesOne o
    → ((n v : ℕ) → 1 ≤ n → Ends (k n v))
    → Ends (elim o as (λ _. Assembled) [
      | none ↦ error
      | some (n, v) ↦ if ltb 0xff v then error else k n v
    ])
Ends-number k none h next = Ends-error
Ends-number k (some (n, v)) h next = both_branches Ends (ltb 0xff v) Ends-error (next n v h)

dot_items-Ends :
    (fuel : ℕ) (out p : List ℕ) → length p < fuel → length p < 256 → Ends (dot_items fuel out p)
unfolding dot_items
dot_items-Ends zero out p h short = absurd (omega arith)
dot_items-Ends (suc fuel) out [] h short = λ e. cc
dot_items-Ends (suc fuel) out (c ∷ cs) h short =
    both_branches Ends (c == b'"')
      (Ends-string (length cs) _ (quoted cs) (quoted-EndsBelow cs) (λ s rest k.
        let le = skip_whitespace-le rest in
        dot_items-Ends fuel (out ++ s) (skip_whitespace rest) (omega arith) (omega arith)))
      (rw (not_endless (c ∷ cs) short) (elim (Bool-cases (is_digit c || c == b'$')) [
        | inl number ↦ rw number (
            Ends-number _ (get_value (c ∷ cs)) (get_value-TakesOne c cs (omega arith) number)
              (λ n v k.
                let le = skip_whitespace-le (drop n (c ∷ cs)) in
                let less = drop-lt n c cs k in
                dot_items-Ends fuel (out ++ v ∷ []) (skip_whitespace (drop n (c ∷ cs)))
                  (omega arith) (omega arith)))
        | inr other ↦ rw other (
            both_branches Ends (c == b',')
              (let le = skip_whitespace-le cs in
                dot_items-Ends fuel out (skip_whitespace cs) (omega arith) (omega arith))
              Ends-error)
      ]))

Ends-found {ℓ} :
    {A : Type ℓ} (o : Option A) (k : A → Assembled)
    → ((a : A) → Ends (k a))
    → Ends (elim o as (λ _. Assembled) [ none ↦ error | some a ↦ k a ])
Ends-found none k h = Ends-error
Ends-found (some a) k h = h a

Ends-done : (n : ℕ) (out : List ℕ) → Ends (done n out)
Ends-done n out h = cc

assemble-Ends : (beyond : Entry) (addr : ℕ) (mne : List ℕ) → Ends (assemble beyond addr mne)
unfolding assemble
assemble-Ends beyond addr mne = Ends-found (find_mne beyond mne none) _ (λ _.
    Ends-found (parse_operand beyond addr mne (skip_whitespace (drop 3 mne))) _ (λ o.
      Ends-found (find_mne beyond mne (some o.mode)) _
        (λ e. Ends-done o.len (emit_op beyond e o.val o.len))))

-- On a line of fewer than 256 characters `dasm_as` ends: the loop over the items of the `.` command
-- and the one that turns the line to upper case do, and `get_value` does.
pub dasm_as-ends :
    (beyond : Entry) (addr : ℕ) (line : List ℕ)
    → length line < 256
    → dasm_as beyond addr line ≢ stuck
unfolding dasm_as
dasm_as-ends beyond addr line short =
    let le = skip_whitespace-le line in
    let behind_dot = drop-le 1 p in
    let counted : ltb 255 (length p) ≡ false = ground arith in
    both_branches Ends (at_end p) Ends-error (
      both_branches Ends (char_at p == b'.')
        (both_branches Ends (at_end (drop 1 p)) Ends-error
          (dot_items-Ends (suc (length p)) [] (drop 1 p) (omega arith) (omega arith)))
        (both_branches Ends (ltb (length p) 3) Ends-error
          (rw counted (assemble-Ends beyond addr (map to_upper p)))))
  where
    p : List ℕ
    p = skip_whitespace line
