-- ===== src/Storage/Output/Order.antt =====
-- The order of the samples that are played.
use mathlib.Core.List.{append_assoc, append-nil}
use mathlib.Core.Path.{subst}
use dan.Prelude.{
  ℕ, ◌≡◌, ◌==◌, ◌||◌, not, true, refl, ap, ◌∙◌, sym, arith, Bool-cases, inl, inr, ltb, List, [],
  ◌∷◌, ◌++◌,
}
use dan.Ring.{Ring, next, is_full, is_ready, take_out}
use dan.Ring.Queue.{contents, IsValid, insert-room, insert-IsValid, take_out_lem, take_out-IsValid}
use dan.Storage.Listener.{ain_buffer_size}
use dan.Storage.Output.{
  Output, ain_put, timer2_ovf, Turn, Session, program_turn, timer_turn, turn, play, aout_on,
}

-- The samples in the buffer.
abbrev pub waiting : Session → List ℕ
waiting s = contents ain_buffer_size s.output.ain

-- All samples: those that have been played, those in the buffer, and those to come.
abbrev pub samples : Session → List ℕ
samples s = s.played ++ (waiting s ++ s.todo)

abbrev pub Keeps : Session → Session → Type 0
Keeps s s' = IsValid ain_buffer_size s'.output.ain × (samples s' ≡ samples s)

program_turn-Keeps :
    (todo : List ℕ) (s : Session)
    → IsValid ain_buffer_size s.output.ain
    → s.todo ≡ todo
    → Keeps s (program_turn todo s)
unfolding program_turn ain_put
program_turn-Keeps [] s v h = (v, refl)
program_turn-Keeps (b ∷ bs) s v h = elim (Bool-cases (is_full ain_buffer_size s.output.ain)) [
  | inl full ↦ rw full (v, refl)
  | inr room ↦ rw room (
    insert-IsValid ain_buffer_size b s.output.ain v,
    rw (insert-room ain_buffer_size b s.output.ain v (omega arith) room)
        (rw (h, append_assoc) refl),
  )
]

-- The interrupt routine takes a sample as `ain_get` does.
taken :
    (r : Ring)
    → is_ready r ≡ true
    → take_out ain_buffer_size r
      ≡ (r.buffer r.start, record r { start = next ain_buffer_size r.start })
unfolding take_out is_ready
taken r ready = rw ready refl

take-IsValid :
    (r : Ring)
    → IsValid ain_buffer_size r
    → is_ready r ≡ true
    → IsValid ain_buffer_size (record r { start = next ain_buffer_size r.start })
take-IsValid r v ready =
    subst (λ (t : ℕ × Ring). IsValid ain_buffer_size t.1) (taken r ready)
      (take_out-IsValid ain_buffer_size r v)

take-contents :
    (r : Ring)
    → IsValid ain_buffer_size r
    → is_ready r ≡ true
    → contents ain_buffer_size r
      ≡ r.buffer r.start
        ∷ contents ain_buffer_size (record r { start = next ain_buffer_size r.start })
take-contents r v ready =
    take_out_lem ain_buffer_size r v ready
    ∙ ap (λ (t : ℕ × Ring). t.0 ∷ contents ain_buffer_size t.1) (taken r ready)

timer_turn-Keeps : (s : Session) → IsValid ain_buffer_size s.output.ain → Keeps s (timer_turn s)
unfolding timer_turn timer2_ovf
timer_turn-Keeps s v = elim (Bool-cases (ltb s.output.cnt 4)) [
  | inl early ↦
      rw early (v, ap (λ (xs : List ℕ). xs ++ (waiting s ++ s.todo)) (append-nil s.played))
  | inr now ↦ elim (Bool-cases (not (is_ready s.output.ain) || not (s.output.err == 0))) [
    | inl silent ↦
        rw (now, silent)
          (v, ap (λ (xs : List ℕ). xs ++ (waiting s ++ s.todo)) (append-nil s.played))
    | inr plays ↦
        let ready : is_ready s.output.ain ≡ true = ground (arith, plays) in
        rw (now, plays)
          (
            take-IsValid s.output.ain v ready,
            append_assoc s.played (s.output.ain.buffer s.output.ain.start ∷ []) _
                ∙ ap (λ (xs : List ℕ). s.played ++ (xs ++ s.todo))
                    (sym (take-contents s.output.ain v ready)),
          )
  ]
]

turn-Keeps : (t : Turn) (s : Session) → IsValid ain_buffer_size s.output.ain → Keeps s (turn t s)
unfolding turn
turn-Keeps Turn.program s v = program_turn-Keeps s.todo s v refl
turn-Keeps Turn.timer s v = timer_turn-Keeps s v

pub play-Keeps :
    (ts : List Turn) (s : Session) → IsValid ain_buffer_size s.output.ain → Keeps s (play ts s)
unfolding play
play-Keeps [] s v = (v, refl)
play-Keeps (t ∷ ts) s v =
    let (v', same) = turn-Keeps t s v in
    let (v'', same') = play-Keeps ts (turn t s) v' in (v'', same' ∙ same)

-- However the program and the interrupt routine take turns, from `aout_on` on the samples that have
-- been played, those in the buffer and those that the program has still to put are together the
-- samples of the program, in their order: none is lost, doubled or overtaken.
pub play-samples :
    (ts : List Turn) (o : Output) (data_out : List ℕ)
    → samples (play ts (record { output = aout_on o; todo = data_out; played = [] })) ≡ data_out
unfolding aout_on
play-samples ts o data_out =
    (play-Keeps ts (record { output = aout_on o; todo = data_out; played = [] })
      (record { start_in = omega arith; stop_in = omega arith })).1
