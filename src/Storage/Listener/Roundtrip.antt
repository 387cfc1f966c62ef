-- ===== src/Storage/Listener/Roundtrip.antt =====
-- What the encoder plays at the rates of include/storage.h is heard by the listener.
use dan.Prelude.{
  ℕ, zero, suc, ◌*◌, ◌/◌, ◌%◌, ◌^◌, ◌<◌, ◌≤◌, ◌≡◌, ◌⊎◌, ◌==◌, Bool, true, false, not, refl, ap, ◌∙◌,
  Bool-cases, inl, inr, ltb, if◌then◌else◌, bit_and, arith, List, [], ◌∷◌, length, all,
}
use dan.Bits.Flag.{bit_and_bit0}
use dan.Ring.{Ring, insert}
use dan.Storage.Encoder.{
  Encoder, freqs, half_pulse, encode_bits, encode_plain, encode_byte, encode_all,
}
use dan.Storage.Listener.{ain_buffer_size, is_long, pin_change, listen}
use dan.Storage.Listener.Heard.{at, value, byte_heard, power}
use dan.Storage.Listener.Wire.{Wire, ticks, write, heard, IsReady, half_lem}

-- The pulses at a sample rate are told apart.
pub record IsRate (samplerate : ℕ) : Type 0 where
  long_lem : is_long (ticks samplerate (freqs samplerate 0)) ≡ true
  short_lem : is_long (ticks samplerate (freqs samplerate 1)) ≡ false
  some_lem : (bit : ℕ) → 1 ≤ freqs samplerate bit

-- SAMPLERATE on the AVR and elsewhere.
pub rates : (samplerate : ℕ) → (samplerate ≡ 15625) ⊎ (samplerate ≡ 44100) → IsRate samplerate
unfolding is_long ticks freqs
rates samplerate (inl h) =
    rw h record { long_lem = refl; short_lem = refl; some_lem = λ b. ground arith }
rates samplerate (inr h) =
    rw h record { long_lem = refl; short_lem = refl; some_lem = λ b. ground arith }

not-not : (b : Bool) → b ≡ not (not b)
not-not true = refl
not-not false = refl

value-double : (w : ℕ) (ps : List ℕ) → value (2 * w) ps ≡ 2 * value w ps
unfolding value
value-double w [] = refl
value-double w (p ∷ ps) = ground (arith, value-double (2 * w) ps)

module _ (samplerate : ℕ) (rate : IsRate samplerate) where
  pub half_heard :
      (bit : ℕ) (enc : Encoder Wire)
      → IsReady samplerate enc
      → (heard samplerate (half_pulse samplerate (write samplerate) bit enc)
          ≡ pin_change (ticks samplerate (freqs samplerate bit)) (heard samplerate enc))
        × IsReady samplerate (half_pulse samplerate (write samplerate) bit enc)
  half_heard bit enc r =
      rw (half_lem samplerate bit enc r (rate.some_lem bit))
        (refl, record { up = not r.up; level_lem = refl; high_lem = not-not r.up; loud = r.loud })

  -- The half pulse that stands for the lowest bit of a byte.
  abbrev lowest : ℕ → ℕ
  lowest byte = ticks samplerate (freqs samplerate (if bit_and byte 1 == 0 then 1 else 0))

  lens : ℕ → ℕ → List ℕ
  lens zero byte = []
  lens (suc n) byte = lowest byte ∷ lens n (byte / 2)

  bits_heard :
      (n byte : ℕ) (enc : Encoder Wire)
      → IsReady samplerate enc
      → (heard samplerate (encode_bits samplerate (write samplerate) n byte enc)
          ≡ listen (lens n byte) (heard samplerate enc))
        × IsReady samplerate (encode_bits samplerate (write samplerate) n byte enc)
  unfolding encode_bits listen lens
  bits_heard zero byte enc r = (refl, r)
  bits_heard (suc n) byte enc r =
      let (first, ready) = half_heard (if bit_and byte 1 == 0 then 1 else 0) enc r in
      let (rest, ready') =
        bits_heard n (byte / 2)
          (half_pulse samplerate (write samplerate) (if bit_and byte 1 == 0 then 1 else 0) enc)
          ready in
      (rest ∙ ap (listen (lens n (byte / 2))) first, ready')

  lowest-is_long : (byte : ℕ) → (if is_long (lowest byte) then 1 else 0) ≡ byte % 2
  lowest-is_long byte = elim (Bool-cases (bit_and byte 1 == 0)) [
    | inl even ↦ rw (even, rate.short_lem) (omega (arith, bit_and_bit0 byte, even_lem even))
    | inr odd ↦ rw (odd, rate.long_lem) (omega (arith, bit_and_bit0 byte, odd_lem odd))
  ]
    where
      even_lem : (bit_and byte 1 == 0) ≡ true → bit_and byte 1 ≡ 0
      even_lem e = ground arith

      odd_lem : (bit_and byte 1 == 0) ≡ false → 1 ≤ bit_and byte 1
      odd_lem e = ground arith

  length-lens : (n byte : ℕ) → length (lens n byte) ≡ n
  unfolding lens
  length-lens zero byte = refl
  length-lens (suc n) byte = omega (arith, length-lens n (byte / 2))

  value-lens : (n byte : ℕ) → byte < 2 ^ n → value 1 (lens n byte) ≡ byte
  unfolding lens value
  value-lens zero byte h = omega arith
  value-lens (suc n) byte h = omega (
    arith,
    lowest-is_long byte,
    value-double 1 (lens n (byte / 2)),
    value-lens n (byte / 2) (omega (arith, power n)),
  )

  -- A byte that is encoded while the listener waits for one comes into the buffer.
  pub plain_heard :
      (byte : ℕ) (enc : Encoder Wire) (r : Ring)
      → byte < 256
      → IsReady samplerate enc
      → heard samplerate enc ≡ at r 0 0
      → (heard samplerate (encode_plain samplerate (write samplerate) byte enc)
          ≡ at (insert ain_buffer_size byte r) 0 0)
        × IsReady samplerate (encode_plain samplerate (write samplerate) byte enc)
  unfolding encode_plain
  plain_heard byte enc r b ready h =
      let (bits, ready') = bits_heard 8 byte enc ready in
      (
        bits
            ∙ ap (listen (lens 8 byte)) h
            ∙ byte_heard (lens 8 byte) r (length-lens 8 byte)
            ∙ ap (λ (x : ℕ). at (insert ain_buffer_size x r) 0 0) (value-lens 8 byte b),
        ready',
      )

-- The bytes one after the other into the buffer.
unfoldable pub insert_all : List ℕ → Ring → Ring
insert_all [] r = r
insert_all (b ∷ bs) r = insert_all bs (insert ain_buffer_size b r)

-- At both sample rates, the half pulses of a list of bytes, led to the pin, put exactly these bytes
-- into the buffer in order, if the encoder is ready to change the pin and the listener at the
-- beginning of a byte; and both are so again afterwards.
pub bytes_heard :
    (samplerate : ℕ) (bs : List ℕ) (enc : Encoder Wire) (r : Ring)
    → (samplerate ≡ 15625) ⊎ (samplerate ≡ 44100)
    → all (λ b. ltb b 256) bs ≡ true
    → IsReady samplerate enc
    → heard samplerate enc ≡ at r 0 0
    → (heard samplerate (encode_all samplerate (write samplerate) bs enc)
        ≡ at (insert_all bs r) 0 0)
      × IsReady samplerate (encode_all samplerate (write samplerate) bs enc)
unfolding encode_all encode_byte insert_all all
bytes_heard samplerate [] enc r rate byte ready h = (h, ready)
bytes_heard samplerate (b ∷ bs) enc r rate bytes ready h =
    let (first, ready') =
      plain_heard samplerate (rates samplerate rate) b enc r (ground arith) ready h in
    bytes_heard samplerate bs (encode_byte samplerate (write samplerate) b enc)
      (insert ain_buffer_size b r) rate (ground arith)
      record {
        up = ready'.up;
        level_lem = ready'.level_lem;
        high_lem = ready'.high_lem;
        loud = ready'.loud;
      }
      first
