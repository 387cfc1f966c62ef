-- ===== src/Storage/Output/Examples.antt =====
-- Samples that are played, and the theorems about them.
use dan.Prelude.{ℕ, ◌≤◌, ◌+◌, ◌≡◌, refl, arith, List, [], ◌∷◌, length}
use dan.Memory.Sram.Flat.{replicate}
use dan.Ring.{next, insert, is_full, is_ready}
use dan.Storage.Output.{
  Output, aout_on, Turn, Session, play, turn, timer_turn, program_turn, timer2_ovf, ain_put,
}
use dan.Storage.Output.Order.{samples, play-samples}
use dan.Storage.Output.Dry.{timers, aout_err-comes, play-hangs}

abbrev reset : Output
reset = record {
  ain = record { buffer = λ _. 0; start = 5; stop = 5 };
  err = 0;
  cnt = 4;
  ocr2b = 0;
}

-- Two samples are put, and one is played at once.
abbrev schedule : List Turn
schedule = Turn.program ∷ Turn.timer ∷ Turn.program ∷ Turn.timer ∷ []

play-samples_example :
    samples (play schedule (record { output = aout_on reset; todo = 7 ∷ 8 ∷ 9 ∷ []; played = [] }))
    ≡ 7 ∷ 8 ∷ 9 ∷ []
play-samples_example = play-samples schedule reset (7 ∷ 8 ∷ 9 ∷ [])

plays_seven :
    (play schedule (record { output = aout_on reset; todo = 7 ∷ 8 ∷ 9 ∷ []; played = [] })).played
    ≡ 7 ∷ []
unfolding play turn timer_turn program_turn timer2_ovf ain_put aout_on next insert is_full is_ready
plays_seven = refl

aout_err-comes_example : (n : ℕ) × (n ≤ 160) × ((timers n reset).err ≡ 1)
aout_err-comes_example =
    aout_err-comes reset
      (record {
        ring = record { start_in = omega arith; stop_in = omega arith };
        cnt_le = omega arith;
      })
      refl

-- The interrupt comes before the first sample.
abbrev dry : Session
dry = record { output = record reset { err = 1 }; todo = replicate 40 7; played = [] }

play-hangs_example :
    ((play schedule dry).played ≡ []) × (length dry.todo ≤ length (play schedule dry).todo + 31)
play-hangs_example =
    play-hangs schedule dry (record { start_in = omega arith; stop_in = omega arith }) (omega arith)
