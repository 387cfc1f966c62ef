-- ===== src/Editor/Refine.antt =====
-- The editor's buffer holds the line that the keys make.
use dan.Prelude.{
  ℕ, ◌+◌, ◌-◌, ◌<◌, ◌≤◌, ◌≡◌, ◌≢◌, ltb, refl, ap, ap₂, ◌∙◌, arith, if◌then◌else◌, List, length,
  true, Bool-cases, inl, inr, u8,
}
use dan.Vm.Bus.{Bus}
use dan.Console.{video_cursor_off}
use dan.Editor.{
  Editor, store, open_gap, blink, move_left, move_right, backspace, append, insert, press,
  last_place, left_of,
}
use dan.Editor.Line.{Line, insert_at, erase_at, key}
use dan.Editor.Cells.{
  cells, length-cells, cells-erased, cells-inserted, close_gap-store, open_gap-store,
}

module _ {M : Type 0} where
  abbrev pub view : Editor M → Line
  view e = record { text = cells e.buffer 0 e.end; pos = e.pos }

  -- The place is in the line, and the line in the buffer with room for the final 0.
  pub record IsValid (size : ℕ) (e : Editor M) : Type 0 where
    pub pos_le : e.pos ≤ e.end
    pub end_lt : e.end < size
    pub size_le : size ≤ 255

module _ {M : Type 0} (sram : Bus M) (font : ℕ → ℕ) where
  backspace-view :
      (e : Editor M)
      → e.pos ≤ e.end
      → 0 < e.pos
      → view (backspace sram font e)
        ≡ record { text = erase_at (cells e.buffer 0 e.end) (e.pos - 1); pos = e.pos - 1 }
  unfolding backspace
  backspace-view e h k =
      let test : ltb 0 e.pos ≡ true = ground arith in
      let con = e.console in
      rw test (
        ap (λ (text : List ℕ). record { text = text; pos = e.pos - 1 })
          (cells-erased _ e.buffer e.end (e.pos - 1)
            (λ i.
              close_gap-store sram font (e.end - (e.pos - 1)) (e.pos - 1) e.end
                (left_of (con.x, con.y)) e.buffer con.sram i (omega arith))
            (omega arith)))

  append-view :
      (d : ℕ) (e : Editor M)
      → e.end < 255
      → e.pos ≡ e.end
      → view (append sram font d e)
        ≡ record { text = insert_at (cells e.buffer 0 e.end) e.pos d; pos = e.pos + 1 }
  unfolding append
  append-view d e h k =
      ap₂ (λ (text : List ℕ) (pos : ℕ). record { text = text; pos = pos })
        (ap (cells (store e.buffer e.pos d) 0) {y = e.end + 1} (omega arith)
          ∙ cells-inserted (store e.buffer e.pos d) e.buffer e.end e.pos d (λ i l. ground arith)
              (omega arith))
        (omega arith)

  insert-view :
      (d : ℕ) (e : Editor M)
      → e.end < 255
      → e.pos < e.end
      → view (insert sram font d e)
        ≡ record { text = insert_at (cells e.buffer 0 e.end) e.pos d; pos = e.pos }
  unfolding insert
  insert-view d e h k =
      let n = u8 (e.end + 1) - 1 - e.pos in
      let (at, con) = last_place sram font n e.console in
      let gap = open_gap sram font n (u8 (e.end + 1) - 1) at e.buffer con.sram in
      ap (λ (text : List ℕ). record { text = text; pos = e.pos })
        (ap (cells (store gap.0 e.pos d) 0) {y = e.end + 1} (omega arith)
          ∙ cells-inserted (store gap.0 e.pos d) e.buffer e.end e.pos d
              (λ i l. ground (
                arith,
                open_gap-store sram font n e.pos (u8 (e.end + 1) - 1) at e.buffer con.sram i
                    (omega arith),
              ))
              (omega arith))

  -- What a key does to the line, and that the line stays valid.
  abbrev Does : ℕ → Line → Editor M → Type 0
  Does size l e = (view e ≡ l) × IsValid size e

  blink-Does : (size : ℕ) (e : Editor M) → IsValid size e → Does size (view e) (blink sram font e)
  unfolding blink
  blink-Does size e v = ground arith

  move_left-Does :
      (size : ℕ) (e : Editor M)
      → IsValid size e
      → Does size (record (view e) { pos = e.pos - 1 }) (move_left e)
  unfolding move_left
  move_left-Does size e v = ground arith

  move_right-Does :
      (size : ℕ) (e : Editor M)
      → IsValid size e
      → Does size
          (record (view e) { pos = if ltb e.pos (length (view e).text) then e.pos + 1 else e.pos })
          (move_right e)
  unfolding move_right
  move_right-Does size e v = ground (arith, length-cells e.buffer 0 e.end)

  backspace-Does :
      (size : ℕ) (e : Editor M)
      → IsValid size e
      → Does size
          (if ltb 0 e.pos
            then record { text = erase_at (view e).text (e.pos - 1); pos = e.pos - 1 }
            else view e)
          (backspace sram font e)
  unfolding backspace
  backspace-Does size e v = elim (Bool-cases (ltb 0 e.pos)) [
    | inl inside ↦ (
      backspace-view e v.pos_le (ground arith) ∙ ground arith,
      rw inside (record { pos_le = ground arith; end_lt = ground arith; size_le = v.size_le }),
    )
    | inr start ↦ rw start (refl, v)
  ]

  append-Does :
      (size d : ℕ) (e : Editor M)
      → IsValid size e
      → e.end + 1 ≢ size
      → e.pos ≡ e.end
      → Does size
          (record { text = insert_at (view e).text e.pos d; pos = e.pos + 1 })
          (append sram font d e)
  unfolding append
  append-Does size d e v h k = (
    append-view d e (omega arith) k,
    record { pos_le = omega arith; end_lt = omega arith; size_le = v.size_le },
  )

  insert-Does :
      (size d : ℕ) (e : Editor M)
      → IsValid size e
      → e.end + 1 ≢ size
      → e.pos < e.end
      → Does size
          (record { text = insert_at (view e).text e.pos d; pos = e.pos })
          (insert sram font d e)
  unfolding insert
  insert-Does size d e v h k = (
    insert-view d e (omega arith) k,
    record { pos_le = omega arith; end_lt = omega arith; size_le = v.size_le },
  )

  off : Editor M → Editor M
  off e = record e { console = video_cursor_off sram e.console }

  pub press-key :
      (size d : ℕ) (e : Editor M)
      → IsValid size e
      → Does size (key size d (view e)) (press sram font size d e)
  unfolding press key off
  press-key size d e v = ground (
    arith,
    blink-Does size e v,
    move_left-Does size (off e) v',
    move_right-Does size (off e) v',
    backspace-Does size (off e) v',
    append-Does size d (off e) v',
    insert-Does size d (off e) v',
    length-cells e.buffer 0 e.end,
  )
    where
      v' : IsValid size (off e)
      v' = record { pos_le = v.pos_le; end_lt = v.end_lt; size_le = v.size_le }
