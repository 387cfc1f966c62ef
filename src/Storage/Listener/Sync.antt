-- ===== src/Storage/Listener/Sync.antt =====
-- How the listener comes into step: the changes of the pin that PCINT1_vect discards, and those that
-- the synchronization of `encode_header` gives.
use dan.Prelude.{
  length-append, ℕ, ◌+◌, ◌<◌, ◌≤◌, ◌≡◌, ◌⊎◌, refl, ap, sym, ◌∙◌, Bool, true, false, not,
  if◌then◌else◌, ltb, all, arith, List, [], ◌∷◌, ◌++◌, length,
}
use dan.Prelude.Int.{pos, negsuc}
use dan.Storage.Encoder.{
  Encoder, freqs, half_pulse, encode_plain, encode_sync, encode_header, encode_all,
}
use dan.Storage.Decoder.Frame.{checksum, frame}
use dan.Storage.Listener.{Listener, ain_on, pin_change, listen}
use dan.Storage.Listener.Heard.{at}
use dan.Storage.Listener.Wire.{Wire, ticks, write, heard, IsReady, level_of, half_same}
use dan.Storage.Listener.Roundtrip.{insert_all, half_heard, rates, IsRate}
use dan.Storage.Listener.Frames.{frame-heard_in_step}

listen-append : (ps qs : List ℕ) (l : Listener) → listen (ps ++ qs) l ≡ listen qs (listen ps l)
unfolding listen
listen-append [] qs l = refl
listen-append (p ∷ ps) qs l = listen-append ps qs (pin_change p l)

discarded :
    (p : ℕ) (l : Listener)
    → l.sync < 4
    → pin_change p l ≡ record l { sync = l.sync + 1; bit = 0; byte = 0 }
unfolding pin_change
discarded p l h = ground arith

-- The fourth change brings the listener to the beginning of a byte.
in_step :
    (p : ℕ) (ps : List ℕ) (l : Listener)
    → l.sync + length (p ∷ ps) ≡ 4
    → listen (p ∷ ps) l ≡ at l.ain 0 0
unfolding listen
in_step p [] l h =
    discarded p l (omega arith)
    ∙ ap (λ (n : ℕ). record { ain = l.ain; sync = n; bit = 0; byte = 0 }) {y = 4} (omega arith)
in_step p (q ∷ ps) l h =
    ap (listen (q ∷ ps)) (discarded p l (omega arith))
    ∙ in_step q ps (record l { sync = l.sync + 1; bit = 0; byte = 0 }) (omega arith)

-- The changes of the pin that the synchronization gives, with the one at which the first byte begins:
-- on the AVR or elsewhere, with a pin that is high or low before.
unfoldable pub sync_changes : Bool → Bool → ℕ
sync_changes true high = if high then 2 else 1
sync_changes false high = if high then 2 else 3

sync_changes-pos : (avr high : Bool) → 1 ≤ sync_changes avr high
unfolding sync_changes
sync_changes-pos true high = ground arith
sync_changes-pos false high = ground arith

module _ (samplerate : ℕ) (rate : IsRate samplerate) where
  -- The pulses that the listener hears, of a given number, and the encoder is ready.
  record Pulses (n : ℕ) (before : Listener) (enc : Encoder Wire) : Type 0 where
    pulses : List ℕ
    count_lem : length pulses ≡ n
    heard_lem : heard samplerate enc ≡ listen pulses before
    ready : IsReady samplerate enc

  first_changes :
      (enc : Encoder Wire) (up : Bool)
      → enc.level ≡ level_of up
      → enc.param.high ≡ not up
      → 1 ≤ enc.volume
      → Pulses 2 enc.param.ear (half_pulse samplerate (write samplerate) 1 enc)
  unfolding listen
  first_changes enc up level high loud =
      let (m, r) =
        half_heard samplerate rate 1 enc
          record { up = up; level_lem = level; high_lem = high; loud = loud } in
      record {
        pulses = ticks samplerate enc.param.time ∷ ticks samplerate (freqs samplerate 1) ∷ [];
        count_lem = refl;
        heard_lem = m;
        ready = r;
      }

  not-not : (b : Bool) → b ≡ not (not b)
  not-not true = refl
  not-not false = refl

  first_same :
      (enc : Encoder Wire) (up : Bool)
      → enc.level ≡ level_of up
      → enc.param.high ≡ up
      → 1 ≤ enc.volume
      → Pulses 1 enc.param.ear (half_pulse samplerate (write samplerate) 1 enc)
  unfolding listen
  first_same enc up level high loud = rw (half_same samplerate 1 enc up level high loud) record {
    pulses = ticks samplerate (enc.param.time + freqs samplerate 1) ∷ [];
    count_lem = refl;
    heard_lem = refl;
    ready = record { up = not up; level_lem = refl; high_lem = high ∙ not-not up; loud = loud };
  }

  one_more :
      (n : ℕ) (before : Listener) (enc : Encoder Wire)
      → Pulses n before enc
      → Pulses (n + 1) before (half_pulse samplerate (write samplerate) 1 enc)
  unfolding listen
  one_more n before enc p =
      let (m, r) = half_heard samplerate rate 1 enc p.ready in
      let t = ticks samplerate (freqs samplerate 1) in
      record {
        pulses = p.pulses ++ t ∷ [];
        count_lem = omega (arith, length-append p.pulses (t ∷ []), p.count_lem);
        heard_lem =
            m ∙ ap (pin_change t) p.heard_lem ∙ sym (listen-append p.pulses (t ∷ []) before);
        ready = r;
      }

  encode_sync-Pulses :
      (avr high : Bool) (enc : Encoder Wire)
      → enc.param.high ≡ high
      → 1 ≤ enc.volume
      → Pulses
          (sync_changes avr high)
          enc.param.ear
          (encode_sync samplerate (write samplerate) avr enc)
  unfolding encode_sync sync_changes
  encode_sync-Pulses true true enc h loud =
      first_changes (record enc { parity = 0; level = negsuc 0 }) false refl h loud
  encode_sync-Pulses true false enc h loud =
      first_same (record enc { parity = 0; level = negsuc 0 }) false refl h loud
  encode_sync-Pulses false true enc h loud =
      one_more 1 enc.param.ear _
        (first_same (record enc { parity = 0; level = pos 1 }) true refl h loud)
  encode_sync-Pulses false false enc h loud =
      one_more 2 enc.param.ear _
        (first_changes (record enc { parity = 0; level = pos 1 }) true refl h loud)

module _ (samplerate : ℕ) (rate : (samplerate ≡ 15625) ⊎ (samplerate ≡ 44100)) (avr : Bool)
    (enc : Encoder Wire) (l : Listener) (early : List ℕ) (loud : 1 ≤ enc.volume)
    (listens : enc.param.ear ≡ listen early (ain_on l))
    (enough : length early + sync_changes avr enc.param.high ≡ 4) where
  abbrev sync : Encoder Wire
  sync = encode_sync samplerate (write samplerate) avr enc

  synced :
      (n : ℕ)
      → 1 ≤ n
      → length early + n ≡ 4
      → Pulses samplerate (rates samplerate rate) n enc.param.ear sync
      → heard samplerate sync ≡ at (ain_on l).ain 0 0
  unfolding ain_on
  synced n some_change four p =
      p.heard_lem
      ∙ ap (listen p.pulses) listens
      ∙ sym (listen-append early p.pulses (ain_on l))
      ∙ stepped (early ++ p.pulses) (omega (arith, length-append early p.pulses, p.count_lem))
    where
      stepped : (ps : List ℕ) → length ps ≡ 4 → listen ps (ain_on l) ≡ at (ain_on l).ain 0 0
      stepped [] h = absurd (omega arith)
      stepped (q ∷ ps) h = in_step q ps (ain_on l) (omega arith)

  -- From `ain_on` on, where the pin changes as often before the header as it takes to four changes
  -- with those of the synchronization (twice, if the pin is high then; if it is low, three times for
  -- the AVR and once elsewhere), the listener is in step: what is encoded from the header to the
  -- parity byte with which `encode_end` begins comes into the buffer as the frame that the decoder
  -- loads, at both sample rates, for less than 65536 bytes and a volume of 1 at least.
  pub frame-heard :
      (bs : List ℕ)
      → length bs < 65536
      → all (λ b. ltb b 256) bs ≡ true
      → let sent =
          encode_all samplerate
            (write samplerate)
            bs
            (encode_header samplerate (write samplerate) avr (length bs) enc) in
        heard samplerate (encode_plain samplerate (write samplerate) sent.parity sent)
        ≡ at (insert_all (frame bs (checksum 0 bs) []) (ain_on l).ain) 0 0
  frame-heard bs small bytes =
      let p =
        encode_sync-Pulses samplerate (rates samplerate rate) avr enc.param.high enc refl loud in
      frame-heard_in_step samplerate rate avr enc (ain_on l).ain p.ready
        (synced (sync_changes avr enc.param.high) (sync_changes-pos avr enc.param.high) enough p) bs
        small bytes
