-- ===== src/Storage/Listener/Wire.antt =====
-- The encoder on a wire to the listener: what is encoded is heard.
use dan.Prelude.{
  ℕ, zero, suc, ◌+◌, ◌*◌, ◌/◌, ◌≤◌, ◌≡◌, ◌==◌, Bool, true, false, not, refl, ap, ◌∙◌, sym, ap₂,
  if◌then◌else◌, u8, arith,
}
use dan.Prelude.Int.{ℤ, pos, negsuc, negate}
use dan.Storage.Encoder.{Encoder, freqs, sample, other_level, repeat, half_pulse}
use dan.Storage.Listener.{Listener, pin_change}

-- The level of the pin, the samples since its last change, and who listens.
pub record Wire : Type 0 where
  pub high : Bool
  pub time : ℕ
  pub ear : Listener

-- A sample drives the pin high or low.
abbrev pub is_high : ℤ → Bool
is_high (pos zero) = false
is_high (pos (suc n)) = true
is_high (negsuc n) = false

abbrev same : Bool → Bool → Bool
same true b = b
same false b = not b

abbrev pub level_of : Bool → ℤ
level_of true = pos 1
level_of false = negsuc 0

same_self : (b : Bool) → same b b ≡ true
same_self true = refl
same_self false = refl

same-not : (b : Bool) → same b (not b) ≡ false
same-not true = refl
same-not false = refl

other_level_lem : (b : Bool) → other_level (level_of b) ≡ level_of (not b)
unfolding other_level
other_level_lem true = refl
other_level_lem false = refl

module _ (samplerate : ℕ) where
  -- What the listener's TCNT2 counts at 62.5 kHz while some samples are played. At 15625, the rate of
  -- the AVR, `TIMER2_OVF_vect` plays a sample at every fifth overflow of 256 cycles of 16 MHz, which
  -- is 12500 samples in a second and five counts for each; the PC plays at the rate it says.
  unfoldable pub ticks : ℕ → ℕ
  ticks time = u8 (if samplerate == 15625 then 5 * time else 62500 * time / samplerate)

  -- A sample of the other level is a change of the pin.
  unfoldable pub write : ℤ → Wire → Wire
  write s w =
      if same (is_high s) w.high
      then record w { time = w.time + 1 }
      else record { high = is_high s; time = 1; ear = pin_change (ticks w.time) w.ear }

  -- The listener after the next change of the pin.
  abbrev pub heard : Encoder Wire → Listener
  heard enc = pin_change (ticks enc.param.time) enc.param.ear

  -- The encoder is about to change the pin.
  pub record IsReady (enc : Encoder Wire) : Type 0 where
    pub up : Bool
    pub level_lem : enc.level ≡ level_of up
    pub high_lem : enc.param.high ≡ not up
    pub loud : 1 ≤ enc.volume

  is_high-sample : (v : ℕ) (up : Bool) → 1 ≤ v → is_high (sample v (level_of up)) ≡ up
  unfolding sample
  is_high-sample zero up h = absurd (omega arith)
  is_high-sample (suc v) true h = ap (λ (n : ℕ). is_high (pos n)) {y = suc v} (omega arith)
  is_high-sample (suc v) false h =
      ap (λ (n : ℕ). is_high (negate (pos n))) {y = suc v} (omega arith)

  write_same : (s : ℤ) (w : Wire) → w.high ≡ is_high s → write s w ≡ record w { time = w.time + 1 }
  unfolding write
  write_same s w h = rw (h, same_self (is_high s)) refl

  write_changes :
      (s : ℤ) (w : Wire)
      → w.high ≡ not (is_high s)
      → write s w ≡ record { high = is_high s; time = 1; ear = pin_change (ticks w.time) w.ear }
  unfolding write
  write_changes s w h = rw (h, same-not (is_high s)) refl

  repeat_same :
      (n : ℕ) (s : ℤ) (w : Wire)
      → w.high ≡ is_high s
      → repeat samplerate write n s w ≡ record w { time = w.time + n }
  unfolding repeat
  repeat_same zero s w h = ap (λ (t : ℕ). record w { time = t }) {x = w.time} (omega arith)
  repeat_same (suc n) s w h =
      ap (repeat samplerate write n s) (write_same s w h)
      ∙ repeat_same n s (record w { time = w.time + 1 }) h
      ∙ ap (λ (t : ℕ). record w { time = t }) (omega arith)

  repeat_changes :
      (n : ℕ) (s : ℤ) (w : Wire)
      → w.high ≡ not (is_high s)
      → 1 ≤ n
      → repeat samplerate write n s w
        ≡ record { high = is_high s; time = n; ear = pin_change (ticks w.time) w.ear }
  unfolding repeat
  repeat_changes zero s w h k = absurd (omega arith)
  repeat_changes (suc n) s w h k =
      ap (repeat samplerate write n s) (write_changes s w h)
      ∙ repeat_same n s
          (record { high = is_high s; time = 1; ear = pin_change (ticks w.time) w.ear }) refl
      ∙ ap (λ (t : ℕ). record { high = is_high s; time = t; ear = pin_change (ticks w.time) w.ear })
          (omega arith)

  pub half_lem :
      (bit : ℕ) (enc : Encoder Wire) (r : IsReady enc)
      → 1 ≤ freqs samplerate bit
      → half_pulse samplerate write bit enc ≡ record enc {
        level = level_of (not r.up);
        param = record { high = r.up; time = freqs samplerate bit; ear = heard enc };
      }
  unfolding half_pulse
  half_lem bit enc r h =
      let high =
        ap (λ (l : ℤ). is_high (sample enc.volume l)) r.level_lem
        ∙ is_high-sample enc.volume r.up r.loud in
      ap₂ (λ (l : ℤ) (w : Wire). record enc { level = l; param = w })
        (ap other_level r.level_lem ∙ other_level_lem r.up)
        (repeat_changes (freqs samplerate bit) (sample enc.volume enc.level) enc.param
            (r.high_lem ∙ ap not (sym high)) h
          ∙ ap (λ (b : Bool). record { high = b; time = freqs samplerate bit; ear = heard enc })
              high)

  -- A half pulse that does not begin with a change of the pin makes the last one longer.
  pub half_same :
      (bit : ℕ) (enc : Encoder Wire) (up : Bool)
      → enc.level ≡ level_of up
      → enc.param.high ≡ up
      → 1 ≤ enc.volume
      → half_pulse samplerate write bit enc ≡ record enc {
        level = level_of (not up);
        param = record enc.param { time = enc.param.time + freqs samplerate bit };
      }
  unfolding half_pulse
  half_same bit enc up is_level is_high_lem loud =
      let high =
        ap (λ (l : ℤ). is_high (sample enc.volume l)) is_level
        ∙ is_high-sample enc.volume up loud in
      ap₂ (λ (l : ℤ) (w : Wire). record enc { level = l; param = w })
        (ap other_level is_level ∙ other_level_lem up)
        (repeat_same (freqs samplerate bit) (sample enc.volume enc.level) enc.param
          (is_high_lem ∙ sym high))
