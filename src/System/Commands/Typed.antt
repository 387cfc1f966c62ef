-- ===== src/System/Commands/Typed.antt =====
-- A line that is typed without the keys that move.
use dan.Prelude.{
  ℕ, zero, suc, ◌+◌, ◌<◌, ◌≡◌, ◌==◌, leb, refl, ap, ap₂, ◌∙◌, sym, arith, true, false, some, List,
  [], ◌∷◌, ◌++◌, length, length-append, and_split,
}
use mathlib.Core.List.{append_assoc, append-nil}
use dan.Dasm.Printed.{is_plain}
use dan.Editor.Line.{line, key}
use dan.Editor.Cells.{cells}
use dan.Editor.Input.{insert_at-length}
use dan.System.Commands.{chars}

key-plain :
    (size d : ℕ) (text : List ℕ)
    → leb 32 d ≡ true
    → length text + 1 < size
    → key size d (record { text = text; pos = length text })
      ≡ record { text = text ++ d ∷ []; pos = length (text ++ d ∷ []) }
unfolding key
key-plain size d text h room =
    let none0 : (d == 0) ≡ false = ground (arith, h) in
    let none1 : (d == 0x11) ≡ false = ground (arith, h) in
    let none2 : (d == 0x10) ≡ false = ground (arith, h) in
    let none3 : (d == 0x08) ≡ false = ground (arith, h) in
    let fits : (length text + 1 == size) ≡ false = ground (arith, room) in
    let last : (length text == length text) ≡ true = ground arith in
    rw (none0, none1, none2, none3, fits, last)
      (ap₂ (λ (t : List ℕ) (p : ℕ). record { text = t; pos = p }) (insert_at-length text d)
        (omega (arith, length-append text (d ∷ []))))

-- The line that plain characters and the new line make.
pub line-plain :
    (size : ℕ) (cs text keys : List ℕ)
    → is_plain cs ≡ true
    → length text + length cs < size
    → line size (cs ++ 0x0a ∷ keys) (record { text = text; pos = length text })
      ≡ some (record { text = text ++ cs; pos = length (text ++ cs) }, keys)
unfolding line is_plain
line-plain size [] text keys h room =
    ap (λ (t : List ℕ). some (record { text = t; pos = length t }, keys)) (sym (append-nil text))
line-plain size (c ∷ cs) text keys h room =
    let (first, rest) = and_split (leb 32 c) _ h in
    let other : (c == 0x0a) ≡ false = ground (arith, first) in
    rw (other, key-plain size c text first (omega (arith, room)))
      (line-plain size cs (text ++ c ∷ []) keys rest
          (omega (arith, length-append text (c ∷ []), room))
        ∙ ap (λ (t : List ℕ). some (record { text = t; pos = length t }, keys))
            (append_assoc text (c ∷ []) cs))

-- The C string that the buffer holds then.
pub chars-plain :
    (n p : ℕ) (buffer : ℕ → ℕ) (cs : List ℕ)
    → is_plain cs ≡ true
    → length cs < n
    → cells buffer p (length cs + 1) ≡ cs ++ 0 ∷ []
    → chars n buffer p ≡ cs
unfolding chars is_plain
chars-plain zero p buffer cs h k e = ground (arith, k)
chars-plain (suc n) p buffer [] h k e = let zero_here : buffer p ≡ 0 = cc in rw zero_here refl
chars-plain (suc n) p buffer (c ∷ cs) h k e =
    let (first, rest) = and_split (leb 32 c) _ h in
    let e' : buffer p ∷ cells buffer (p + 1) (length cs + 1) ≡ c ∷ (cs ++ 0 ∷ []) =
      ap (cells buffer p) {x = suc (length cs + 1)} (omega arith) ∙ e in
    let here : buffer p ≡ c = cc in
    let behind : cells buffer (p + 1) (length cs + 1) ≡ cs ++ 0 ∷ [] = cc in
    let other : (c == 0) ≡ false = ground (arith, first) in
    rw here (
      rw other (
        ap (λ (t : List ℕ). c ∷ t)
          (chars-plain n (p + 1) buffer cs rest (omega (arith, k)) behind)))
