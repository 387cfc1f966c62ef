-- ===== src/Editor/Cells.antt =====
-- The first cells of a buffer as a list, and what the loops of the editor do to it.
use dan.Prelude.{
  ℕ, zero, suc, ◌+◌, ◌-◌, ◌<◌, ◌≤◌, ◌≡◌, ◌==◌, ltb, refl, ap, ap₂, ◌∙◌, arith, if◌then◌else◌, List,
  [], ◌∷◌, length, ◌&&◌, leb,
}
use dan.Vm.Bus.{Bus}
use dan.Editor.{close_gap, open_gap}
use dan.Editor.Line.{insert_at, erase_at}

abbrev pub cells : (ℕ → ℕ) → ℕ → ℕ → List ℕ
cells buf k zero = []
cells buf k (suc n) = buf k ∷ cells buf (k + 1) n

pub length-cells : (buf : ℕ → ℕ) (k n : ℕ) → length (cells buf k n) ≡ n
length-cells buf k zero = refl
length-cells buf k (suc n) = omega (arith, length-cells buf (k + 1) n)

-- Cells of two buffers that agree with a displacement.
pub cells-moved :
    (n : ℕ) (f g : ℕ → ℕ) (k l : ℕ)
    → ((i : ℕ) → i < n → f (k + i) ≡ g (l + i))
    → cells f k n ≡ cells g l n
cells-moved zero f g k l h = refl
cells-moved (suc n) f g k l h =
    ap₂ (λ (x : ℕ) (xs : List ℕ). x ∷ xs)
      (ap f (omega arith) ∙ h 0 (omega arith) ∙ ap g (omega arith))
      (cells-moved n f g (k + 1) (l + 1)
        (λ i hi. ap f (omega arith) ∙ h (i + 1) (omega arith) ∙ ap g (omega arith)))

-- A buffer with a cell more at `d`.
pub cells-insert_at :
    (d r : ℕ) (f g : ℕ → ℕ) (k v : ℕ)
    → ((i : ℕ) → i < d → f (k + i) ≡ g (k + i))
    → f (k + d) ≡ v
    → ((i : ℕ) → i < r → f (k + d + 1 + i) ≡ g (k + d + i))
    → cells f k (d + suc r) ≡ insert_at (cells g k (d + r)) d v
unfolding insert_at
cells-insert_at zero r f g k v lo at hi =
    ap (cells f k) {y = suc r} (omega arith)
    ∙ ap₂ (λ (x : ℕ) (xs : List ℕ). x ∷ xs) (ap f (omega arith) ∙ at)
        (cells-moved r f g (k + 1) k (λ i h. ap f (omega arith) ∙ hi i h ∙ ap g (omega arith))
          ∙ ap (cells g k) (omega arith))
cells-insert_at (suc d) r f g k v lo at hi =
    ap (cells f k) {y = suc (d + suc r)} (omega arith)
    ∙ ap₂ (λ (x : ℕ) (xs : List ℕ). x ∷ xs)
        (ap f {y = k + 0} (omega arith) ∙ lo 0 (omega arith) ∙ ap g (omega arith))
        (cells-insert_at d r f g (k + 1) v
          (λ i h. ap f (omega arith) ∙ lo (i + 1) (omega arith) ∙ ap g (omega arith))
          (ap f (omega arith) ∙ at) (λ i h. ap f (omega arith) ∙ hi i h ∙ ap g (omega arith)))
    ∙ ap (λ (n : ℕ). insert_at (cells g k n) (suc d) v) {x = suc (d + r)} (omega arith)

pub cells-erase_at :
    (d r : ℕ) (f g : ℕ → ℕ) (k : ℕ)
    → ((i : ℕ) → i < d → f (k + i) ≡ g (k + i))
    → ((i : ℕ) → i < r → f (k + d + i) ≡ g (k + d + 1 + i))
    → cells f k (d + r) ≡ erase_at (cells g k (d + suc r)) d
unfolding erase_at
cells-erase_at zero r f g k lo hi =
    ap (cells f k) (omega arith)
    ∙ cells-moved r f g k (k + 1) (λ i h. ap f (omega arith) ∙ hi i h ∙ ap g (omega arith))
    ∙ ap (λ (n : ℕ). erase_at (cells g k n) 0) {x = suc r} (omega arith)
cells-erase_at (suc d) r f g k lo hi =
    ap (cells f k) {y = suc (d + r)} (omega arith)
    ∙ ap₂ (λ (x : ℕ) (xs : List ℕ). x ∷ xs)
        (ap f {y = k + 0} (omega arith) ∙ lo 0 (omega arith) ∙ ap g (omega arith))
        (cells-erase_at d r f g (k + 1)
          (λ i h. ap f (omega arith) ∙ lo (i + 1) (omega arith) ∙ ap g (omega arith))
          (λ i h. ap f (omega arith) ∙ hi i h ∙ ap g (omega arith)))
    ∙ ap (λ (n : ℕ). erase_at (cells g k n) (suc d)) {x = suc (d + suc r)} (omega arith)

-- A buffer in which the cells behind `p` have moved down holds the text without the character at `p`.
pub cells-erased :
    (f g : ℕ → ℕ) (end p : ℕ)
    → ((i : ℕ) → f i ≡ (if leb p i && ltb (i + 1) end then g (i + 1) else g i))
    → p < end
    → cells f 0 (end - 1) ≡ erase_at (cells g 0 end) p
cells-erased f g end p h k =
    ap (cells f 0) {y = p + (end - 1 - p)} (omega arith)
    ∙ cells-erase_at p (end - 1 - p) f g 0 (λ i l. h (0 + i) ∙ ground arith)
        (λ i l.
          h (0 + p + i)
          ∙ ground (arith, ap g {x = 0 + p + i + 1} {y = 0 + p + 1 + i} (omega arith)))
    ∙ ap (λ (n : ℕ). erase_at (cells g 0 n) p) (omega arith)

-- A buffer with `v` at `p` in which the cells from there on have moved up holds the text with `v`.
pub cells-inserted :
    (f g : ℕ → ℕ) (end p v : ℕ)
    → ((i : ℕ) → i ≤ end → f i ≡ (if i == p then v else if ltb p i then g (i - 1) else g i))
    → p ≤ end
    → cells f 0 (end + 1) ≡ insert_at (cells g 0 end) p v
cells-inserted f g end p v h k =
    ap (cells f 0) {y = p + suc (end - p)} (omega arith)
    ∙ cells-insert_at p (end - p) f g 0 v (λ i l. h (0 + i) (omega arith) ∙ ground arith)
        (h (0 + p) (omega arith) ∙ ground arith)
        (λ i l.
          h (0 + p + 1 + i) (omega arith)
          ∙ ground (arith, ap g {x = 0 + p + 1 + i - 1} {y = 0 + p + i} (omega arith)))
    ∙ ap (λ (n : ℕ). insert_at (cells g 0 n) p v) (omega arith)

module _ {M : Type 0} (sram : Bus M) (font : ℕ → ℕ) where
  -- Backspace moves the cells behind `k` down by one.
  pub close_gap-store :
      (n k end : ℕ) (at : ℕ × ℕ) (buf : ℕ → ℕ) (m : M) (i : ℕ)
      → k + n ≡ end
      → (close_gap sram font n k end at buf m).0 i
        ≡ (if leb k i && ltb (i + 1) end then buf (i + 1) else buf i)
  unfolding close_gap
  close_gap-store zero k end at buf m i h = ground arith
  close_gap-store (suc n) k end at buf m i h =
      close_gap-store n (k + 1) end _ _ _ i (omega arith)
      ∙ ground (arith, ap buf {x = k + 1} {y = i + 1})

  -- A key in the middle moves the cells from `p` on up by one.
  pub open_gap-store :
      (n p k : ℕ) (at : ℕ × ℕ) (buf : ℕ → ℕ) (m : M) (i : ℕ)
      → k ≡ p + n
      → (open_gap sram font n k at buf m).0 i ≡ (if ltb p i && leb i k then buf (i - 1) else buf i)
  unfolding open_gap
  open_gap-store zero p k at buf m i h = ground arith
  open_gap-store (suc n) p k at buf m i h =
      open_gap-store n p (k - 1) _ _ _ i (omega arith)
      ∙ ground (arith, ap buf {x = k - 1} {y = i - 1})
