-- ===== src/Storage/Output/Dry.antt =====
-- What happens when the buffer runs dry.
use mathlib.Core.List.{append-nil}
use dan.Prelude.{
  length-append, ℕ, zero, suc, ◌+◌, ◌-◌, ◌*◌, ◌≤◌, ◌<◌, ◌≡◌, ◌≢◌, refl, ap, ◌∙◌, arith, Bool-cases,
  inl, inr, Option, none, List, [], ◌∷◌, ◌++◌, length,
}
use dan.Ring.{Ring, is_full, is_ready}
use dan.Ring.Queue.{contents, count, IsValid, next_lem, length-contents}
use dan.Storage.Listener.{ain_buffer_size}
use dan.Storage.Output.{
  heard, Output, ain_put, timer2_ovf, Turn, Session, program_turn, timer_turn, turn, play,
}
use dan.Storage.Output.Order.{waiting, play-Keeps}

-- The interrupts one after the other.
unfoldable pub timers : ℕ → Output → Output
timers zero o = o
timers (suc n) o = timers n (timer2_ovf o).0

-- Up to the error: five interrupts for each sample that waits, and those up to the next one that counts.
abbrev left : Output → ℕ
left o = 5 * count ain_buffer_size o.ain + (4 - o.cnt)

pub record IsRunning (o : Output) : Type 0 where
  pub ring : IsValid ain_buffer_size o.ain
  pub cnt_le : o.cnt ≤ 4

timer2_ovf-IsRunning : (o : Output) → IsRunning o → IsRunning (timer2_ovf o).0
unfolding timer2_ovf is_ready
timer2_ovf-IsRunning o v = record {
  ring = record {
    start_in = ground (arith, next_lem ain_buffer_size o.ain.start);
    stop_in = ground arith;
  };
  cnt_le = ground arith;
}

left_step :
    (o : Output) (n : ℕ)
    → IsRunning o
    → o.err ≡ 0
    → left o ≡ suc n
    → (left (timer2_ovf o).0 ≡ n) × ((timer2_ovf o).0.err ≡ 0)
unfolding timer2_ovf is_ready
left_step o n v e h =
    ground (arith, next_lem ain_buffer_size o.ain.start v.ring.start_in, v.ring.stop_in, v.cnt_le)

left_last : (o : Output) → IsRunning o → left o ≡ 0 → (timer2_ovf o).0.err ≡ 1
unfolding timer2_ovf is_ready
left_last o v h = ground (arith, v.ring.start_in, v.ring.stop_in, v.cnt_le)

ends : (n : ℕ) (o : Output) → IsRunning o → o.err ≡ 0 → left o ≡ n → (timers (suc n) o).err ≡ 1
unfolding timers
ends zero o v e h = left_last o v h
ends (suc n) o v e h =
    let (h', e') = left_step o n v e h in ends n (timer2_ovf o).0 (timer2_ovf-IsRunning o v) e' h'

-- Once nothing is put into the buffer, the interrupt routine reports the end within 160 interrupts,
-- so that the loop at the end of `save` ends.
pub aout_err-comes :
    (o : Output) → IsRunning o → o.err ≡ 0 → (n : ℕ) × (n ≤ 160) × ((timers n o).err ≡ 1)
aout_err-comes o v e = (
  suc (left o),
  ground (arith, v.ring.start_in, v.ring.stop_in, v.cnt_le),
  ends (left o) o v e refl,
)

timer2_ovf-silent :
    (o : Output) → o.err ≢ 0 → ((timer2_ovf o).1 ≡ none) × ((timer2_ovf o).0.err ≢ 0)
unfolding timer2_ovf
timer2_ovf-silent o e = ground arith

timer_turn-silent :
    (s : Session)
    → s.output.err ≢ 0
    → ((timer_turn s).played ≡ s.played) × ((timer_turn s).output.err ≢ 0)
unfolding timer_turn
timer_turn-silent s e =
    let (nothing, e') = timer2_ovf-silent s.output e in
    (ap (λ (b : Option ℕ). s.played ++ heard b) nothing ∙ append-nil s.played, e')

program_turn-silent :
    (todo : List ℕ) (s : Session)
    → s.output.err ≢ 0
    → ((program_turn todo s).played ≡ s.played) × ((program_turn todo s).output.err ≢ 0)
unfolding program_turn ain_put
program_turn-silent [] s e = (refl, e)
program_turn-silent (b ∷ bs) s e = elim (Bool-cases (is_full ain_buffer_size s.output.ain)) [
  | inl full ↦ rw full (refl, e)
  | inr room ↦ rw room (refl, e)
]

play-silent : (ts : List Turn) (s : Session) → s.output.err ≢ 0 → (play ts s).played ≡ s.played
unfolding play turn
play-silent [] s e = refl
play-silent (Turn.program ∷ ts) s e =
    let (same, e') = program_turn-silent s.todo s e in
    play-silent ts (program_turn s.todo s) e' ∙ same
play-silent (Turn.timer ∷ ts) s e =
    let (same, e') = timer_turn-silent s e in play-silent ts (timer_turn s) e' ∙ same

fewer_waiting : (r : Ring) → IsValid ain_buffer_size r → length (contents ain_buffer_size r) < 32
fewer_waiting r v = omega (arith, length-contents ain_buffer_size r, fewer)
  where
    fewer : count ain_buffer_size r < 32
    fewer = ground (arith, v.start_in, v.stop_in)

-- After an error nothing more is played, however the program and the interrupt routine take turns,
-- and the program puts at most 31 samples more: with more to put it waits in `ain_put` for ever.
pub play-hangs :
    (ts : List Turn) (s : Session)
    → IsValid ain_buffer_size s.output.ain
    → s.output.err ≢ 0
    → ((play ts s).played ≡ s.played) × (length s.todo ≤ length (play ts s).todo + 31)
play-hangs ts s v e =
    let s' = play ts s in
    let (v', same) = play-Keeps ts s v in
    let silent = play-silent ts s e in
    (
      silent,
      omega (
        arith,
        ap {B = ℕ} length same,
        ap {B = ℕ} length silent,
        length-append s.played (waiting s ++ s.todo),
        length-append (waiting s) s.todo,
        length-append s'.played (waiting s' ++ s'.todo),
        length-append (waiting s') s'.todo,
        fewer_waiting s'.output.ain v',
      ),
    )
