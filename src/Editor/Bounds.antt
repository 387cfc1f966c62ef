-- ===== src/Editor/Bounds.antt =====
-- No key makes the editor write behind its buffer.
use dan.Prelude.{
  ℕ, ◌+◌, ◌-◌, ◌<◌, ◌≤◌, ◌≡◌, refl, ◌∙◌, arith, List, [], ◌∷◌, Bool-cases, inl, inr, some, u8, ltb,
}
use dan.Vm.Bus.{Bus}
use dan.Console.{Console, video_cursor_off}
use dan.Editor.{
  Editor, blink, move_left, move_right, backspace, append, insert, press, edit, buffered_input,
  left_of, last_place,
}
use dan.Editor.Cells.{close_gap-store, open_gap-store}
use dan.Editor.Refine.{IsValid, press-key}

module _ {M : Type 0} (sram : Bus M) (font : ℕ → ℕ) (size : ℕ) (i : ℕ) (out : size ≤ i) where
  backspace-outside :
      (e : Editor M) → IsValid size e → (backspace sram font e).buffer i ≡ e.buffer i
  unfolding backspace
  backspace-outside e v =
      let con = e.console in
      elim (Bool-cases (ltb 0 e.pos)) [
        | inl inside ↦ rw inside (
            close_gap-store sram font (e.end - (e.pos - 1)) (e.pos - 1) e.end
              (left_of (con.x, con.y)) e.buffer con.sram i (ground arith)
            ∙ ground arith)
        | inr start ↦ rw start refl
      ]

  insert-outside :
      (d : ℕ) (e : Editor M)
      → IsValid size e
      → e.pos < e.end
      → (insert sram font d e).buffer i ≡ e.buffer i
  unfolding insert
  insert-outside d e v h =
      let n = u8 (e.end + 1) - 1 - e.pos in
      let (at, con) = last_place sram font n e.console in
      ground (
        arith,
        open_gap-store sram font n e.pos (u8 (e.end + 1) - 1) at e.buffer con.sram i (omega arith),
      )

  append-outside :
      (d : ℕ) (e : Editor M) → IsValid size e → (append sram font d e).buffer i ≡ e.buffer i
  unfolding append
  append-outside d e v = ground arith

  same_buffer :
      (e : Editor M)
      → ((blink sram font e).buffer i ≡ e.buffer i)
        × ((move_left e).buffer i ≡ e.buffer i)
        × ((move_right e).buffer i ≡ e.buffer i)
  unfolding blink move_left move_right
  same_buffer e = ground arith

  off : Editor M → Editor M
  off e = record e { console = video_cursor_off sram e.console }

  press-outside :
      (d : ℕ) (e : Editor M) → IsValid size e → (press sram font size d e).buffer i ≡ e.buffer i
  unfolding press off
  press-outside d e v = ground (
    arith,
    same_buffer e,
    same_buffer (off e),
    backspace-outside (off e) v',
    append-outside d (off e) v',
    insert-outside d (off e) v',
  )
    where
      v' : IsValid size (off e)
      v' = record { pos_le = v.pos_le; end_lt = v.end_lt; size_le = v.size_le }

  edit-outside :
      (keys : List ℕ) (e : Editor M) (n : ℕ) (e' : Editor M) (rest : List ℕ)
      → IsValid size e
      → edit sram font size keys e ≡ some (n, e', rest)
      → (n < size) × (e'.buffer i ≡ e.buffer i)
  unfolding edit
  edit-outside [] e n e' rest v h = cc
  edit-outside (d ∷ keys) e n e' rest v h =
      let (_, v') = press-key sram font size d e v in
      ground (arith, press-outside d e v, edit-outside keys (press sram font size d e) n e' rest v')

  -- A line that is returned is shorter than the buffer, and behind the buffer nothing is written:
  -- with a size of 1 to 255, for all keys.
  pub buffered_input-bounds :
      (buffer : ℕ → ℕ) (keys : List ℕ) (con : Console M) (n : ℕ) (e : Editor M) (rest : List ℕ)
      → 1 ≤ size
      → size ≤ 255
      → buffered_input sram font buffer size keys con ≡ some (n, e, rest)
      → (n < size) × (e.buffer i ≡ buffer i)
  unfolding buffered_input
  buffered_input-bounds buffer keys con n e rest h k returns =
      edit-outside keys (record { console = con; buffer = buffer; pos = 0; end = 0; cnt = 0 }) n e
        rest (record { pos_le = omega arith; end_lt = omega arith; size_le = k }) returns
