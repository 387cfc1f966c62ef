-- ===== src/Storage/Output.antt =====
-- The playing side of storage/storage.c: `aout_on`, `ain_put` and the interrupt routine TIMER2_OVF,
-- which takes the samples that the program puts into the buffer.
pub mod Order
pub mod Dry
mod Examples
use dan.Prelude.{
  ℕ, ◌+◌, ◌==◌, ◌||◌, not, Bool, ltb, if◌then◌else◌, u8, Option, none, some, List, [], ◌∷◌, ◌++◌,
}
use dan.Ring.{Ring, next, insert, is_full, is_ready}
use dan.Storage.Listener.{ain_buffer_size}

-- `ain_buffer` with its indices, `_aout_err`, the static `cnt` of the routine, and OCR2B.
pub record Output : Type 0 where
  pub ain : Ring
  pub err : ℕ
  pub cnt : ℕ
  pub ocr2b : ℕ

unfoldable pub aout_on : Output → Output
aout_on o = record o {
  ain = record { buffer = o.ain.buffer; start = 0; stop = 0 };
  err = 0;
  ocr2b = 0;
}

-- One look of `ain_put` at the buffer; `none` waits on.
unfoldable pub ain_put : ℕ → Output → Option Output
ain_put byte o =
    if is_full ain_buffer_size o.ain
    then none
    else some (record o { ain = insert ain_buffer_size byte o.ain })

-- TIMER2_OVF_vect, with the sample that it takes from the buffer, if it does.
unfoldable pub timer2_ovf : Output → Output × Option ℕ
timer2_ovf o =
    if ltb o.cnt 4
    then (record o { cnt = u8 (o.cnt + 1) }, none)
    else if not (is_ready o.ain) || not (o.err == 0)
    then (record o { cnt = 0; err = 1; ocr2b = 0 }, none)
    else (
      record o {
        cnt = 0;
        ocr2b = o.ain.buffer o.ain.start;
        ain = record o.ain { start = next ain_buffer_size o.ain.start };
      },
      some (o.ain.buffer o.ain.start),
    )

-- Who runs next: the program looks at the buffer, or the timer interrupts it.
pub data Turn : Type 0 where
  program timer : Turn

-- The samples that the program has still to put, and those that have been played.
pub record Session : Type 0 where
  pub output : Output
  pub todo : List ℕ
  pub played : List ℕ

-- What the look at the buffer does to the samples.
abbrev pub put : Session → ℕ → List ℕ → Option Output → Session
put s b bs none = s
put s b bs (some o) = record s { output = o; todo = bs }

unfoldable pub program_turn : List ℕ → Session → Session
unfolding ain_put
program_turn [] s = s
program_turn (b ∷ bs) s = put s b bs (ain_put b s.output)

abbrev pub heard : Option ℕ → List ℕ
heard none = []
heard (some b) = b ∷ []

unfoldable pub timer_turn : Session → Session
unfolding timer2_ovf
timer_turn s =
    let (o, b) = timer2_ovf s.output in record s { output = o; played = s.played ++ heard b }

unfoldable pub turn : Turn → Session → Session
unfolding program_turn timer_turn
turn Turn.program s = program_turn s.todo s
turn Turn.timer s = timer_turn s

-- The turns of a schedule in order.
unfoldable pub play : List Turn → Session → Session
unfolding turn
play [] s = s
play (t ∷ ts) s = play ts (turn t s)
