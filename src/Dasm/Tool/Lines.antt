-- ===== src/Dasm/Tool/Lines.antt =====
-- The lines of a file, and the bytes of an instruction in the memory.
use dan.Prelude.{
  ℕ, zero, suc, ◌+◌, ◌<◌, ◌≤◌, ◌≡◌, ◌==◌, ltb, leb, u16, true, false, refl, ap, ap₂, ◌∙◌, sym,
  arith, List, [], ◌∷◌, ◌++◌, length, and_split,
}
use mathlib.Core.List.{append-nil}
use dan.Vm.Decode.{Mode, size}
use dan.Dasm.Text.{c_string}
use dan.Dasm.Roundtrip.{code}
use dan.Dasm.Printed.{is_plain}
use dan.Dasm.Tool.{fgets, first}
use dan.Editor.Cells.{cells}

pub fgets-line :
    (n : ℕ) (cs rest : List ℕ)
    → is_plain cs ≡ true
    → length cs < n
    → fgets n (cs ++ 10 ∷ rest) ≡ (cs ++ 10 ∷ [], rest)
unfolding fgets is_plain
fgets-line zero cs rest h k = ground (arith, k)
fgets-line (suc n) [] rest h k = refl
fgets-line (suc n) (c ∷ cs) rest h k =
    let (a, b) = and_split (leb 32 c) _ h in
    let other : (c == 10) ≡ false = ground (arith, a) in
    rw other
      (ap (λ (t : List ℕ × List ℕ). (c ∷ t.0, t.1)) (fgets-line n cs rest b (omega (arith, k))))

pub c_string-append :
    (cs end : List ℕ) → is_plain cs ≡ true → c_string (cs ++ end) ≡ cs ++ c_string end
unfolding c_string is_plain
c_string-append [] end h = refl
c_string-append (c ∷ cs) end h =
    let (a, b) = and_split (leb 32 c) _ h in
    let other : (c == 0) ≡ false = ground (arith, a) in
    rw other (ap (λ (t : List ℕ). c ∷ t) (c_string-append cs end b))

pub c_string-plain : (cs : List ℕ) → is_plain cs ≡ true → c_string cs ≡ cs
unfolding c_string
c_string-plain cs h = ap c_string (sym (append-nil cs)) ∙ c_string-append cs [] h ∙ append-nil cs

pub cells-append :
    (f : ℕ → ℕ) (n k len : ℕ) → cells f k n ++ cells f (k + n) len ≡ cells f k (n + len)
cells-append f zero k len =
    let here : k + 0 ≡ k = omega arith in
    let all : 0 + len ≡ len = omega arith in rw (here, all) refl
cells-append f (suc n) k len =
    let next : k + suc n ≡ k + 1 + n = omega arith in
    let all : suc n + len ≡ suc (n + len) = omega arith in
    rw (next, all) (ap (λ (bs : List ℕ). f k ∷ bs) (cells-append f n (k + 1) len))

pub two_cells :
    (f : ℕ → ℕ) (k : ℕ) → k + 2 ≤ 65535 → f k ∷ f (u16 (k + 1)) ∷ [] ≡ f k ∷ f (k + 1) ∷ []
two_cells f k h = ap (λ (i : ℕ). f k ∷ f i ∷ []) (omega arith)

pub three_cells :
    (f : ℕ → ℕ) (k : ℕ)
    → k + 3 ≤ 65535
    → f k ∷ f (u16 (k + 1)) ∷ f (u16 (k + 2)) ∷ [] ≡ f k ∷ f (k + 1) ∷ f (k + 1 + 1) ∷ []
three_cells f k h = ap₂ (λ (i j : ℕ). f k ∷ f i ∷ f j ∷ []) (omega arith) (omega arith)

pub first-code :
    (m : Mode) (op b1 b2 : ℕ)
    → (first (size m) (code op b1 b2 (size m)) ≡ code op b1 b2 (size m))
      × (ltb 3 (length (code op b1 b2 (size m))) ≡ false)
      × (1 ≤ size m)
unfolding size
first-code Mode.implied op b1 b2 = (refl, refl, omega arith)
first-code _ op b1 b2 = (refl, refl, omega arith)
