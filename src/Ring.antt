-- ===== src/Ring.antt =====
-- A byte buffer between an interrupt routine and the program, as storage/storage.c and
-- input/keyboard.c keep it: an array, the index of the oldest byte and the index of the next one.
-- The size is AIN_BUFFER_SIZE in the one and KEYB_BUFFER_SIZE in the other.
pub mod Queue
mod Examples
use dan.Prelude.{ℕ, ◌+◌, ◌%◌, Bool, not, ◌==◌, if◌then◌else◌}

pub record Ring : Type 0 where
  pub buffer : ℕ → ℕ
  pub start : ℕ
  pub stop : ℕ

module _ (size : ℕ) where
  unfoldable pub next : ℕ → ℕ
  next i = (i + 1) % size

  -- The statements that add a byte; the oldest one gives way when the buffer is full.
  unfoldable pub insert : ℕ → Ring → Ring
  insert byte r =
      let r' = record r {
        buffer = λ p. if p == r.stop then byte else r.buffer p;
        stop = next r.stop;
      } in
      if r'.stop == r'.start then record r' { start = next r'.start } else r'

  unfoldable pub is_full : Ring → Bool
  unfolding next
  is_full r = next r.stop == r.start

  -- The statements that take the oldest byte; 0 stands for none.
  unfoldable pub take_out : Ring → ℕ × Ring
  take_out r =
      if not (r.stop == r.start)
      then (r.buffer r.start, record r { start = next r.start })
      else (0, r)

unfoldable pub is_ready : Ring → Bool
is_ready r = not (r.stop == r.start)
