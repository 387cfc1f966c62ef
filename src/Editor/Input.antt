-- ===== src/Editor/Input.antt =====
-- What `buffered_input` returns for the keys that are pressed.
use dan.Prelude.{
  ℕ, ◌+◌, ◌≤◌, ◌≡◌, ◌==◌, refl, ap, ap₂, ◌∙◌, sym, arith, List, [], ◌∷◌, ◌++◌, length, Bool-cases,
  inl, inr, Option, none, some,
}
use dan.Vm.Bus.{Bus}
use dan.Console.{Console}
use dan.Editor.{Editor, store, press, edit, buffered_input}
use dan.Editor.Line.{Line, insert_at, line}
use dan.Editor.Cells.{cells, length-cells, cells-inserted}
use dan.Editor.Refine.{view, IsValid, press-key}

-- The length that is returned, the buffer up to the final 0, and the keys that are left.
abbrev pub returned : {M : Type 0} → Option (ℕ × Editor M × List ℕ) → Option (ℕ × List ℕ × List ℕ)
returned none = none
returned (some (n, e, keys)) = some (n, cells e.buffer 0 (n + 1), keys)

-- The line as a C string.
abbrev pub zstring : Option (Line × List ℕ) → Option (ℕ × List ℕ × List ℕ)
zstring none = none
zstring (some (l, keys)) = some (length l.text, l.text ++ 0 ∷ [], keys)

pub insert_at-length : (xs : List ℕ) (y : ℕ) → insert_at xs (length xs) y ≡ xs ++ y ∷ []
unfolding insert_at
insert_at-length [] y = refl
insert_at-length (x ∷ xs) y = ap (λ (ys : List ℕ). x ∷ ys) (insert_at-length xs y)

terminated :
    (buffer : ℕ → ℕ) (end : ℕ)
    → cells (store buffer end 0) 0 (end + 1) ≡ cells buffer 0 end ++ 0 ∷ []
terminated buffer end =
    cells-inserted (store buffer end 0) buffer end end 0 (λ i h. ground arith) (omega arith)
    ∙ ap (λ (n : ℕ). insert_at (cells buffer 0 end) n 0) (sym (length-cells buffer 0 end))
    ∙ insert_at-length (cells buffer 0 end) 0

module _ {M : Type 0} (sram : Bus M) (font : ℕ → ℕ) where
  edit-line :
      (size : ℕ) (keys : List ℕ) (e : Editor M)
      → IsValid size e
      → returned (edit sram font size keys e) ≡ zstring (line size keys (view e))
  unfolding edit line
  edit-line size [] e v = refl
  edit-line size (d ∷ keys) e v =
      let (does, v') = press-key sram font size d e v in
      elim (Bool-cases (d == 0x0a)) [
        | inl enter ↦ rw enter (
            ap₂ (λ (n : ℕ) (cs : List ℕ). some (n, cs, keys)) (sym (length-cells e.buffer 0 e.end))
              (terminated e.buffer e.end))
        | inr other ↦ rw other (
            edit-line size keys (press sram font size d e) v'
            ∙ ap (λ (l : Line). zstring (line size keys l)) does)
      ]

  -- With a buffer of 1 to 255 bytes, whatever stands in it and on the screen, `buffered_input`
  -- returns at the first new line, exactly if there is one, with the length of the line that the keys
  -- make, the line in the buffer with a 0 behind it, and the keys behind the new line left.
  pub buffered_input-line :
      (buffer : ℕ → ℕ) (size : ℕ) (keys : List ℕ) (con : Console M)
      → 1 ≤ size
      → size ≤ 255
      → returned (buffered_input sram font buffer size keys con)
        ≡ zstring (line size keys (record { text = []; pos = 0 }))
  unfolding buffered_input
  buffered_input-line buffer size keys con h k =
      edit-line size keys (record { console = con; buffer = buffer; pos = 0; end = 0; cnt = 0 })
        (record { pos_le = omega arith; end_lt = omega arith; size_le = k })
