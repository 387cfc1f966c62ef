-- ===== src/Storage/Listener/Frames.antt =====
-- A whole frame from the encoder, heard by a listener that is in step.
use dan.Prelude.{
  ℕ, ◌/◌, ◌%◌, ◌<◌, ◌≡◌, ◌⊎◌, zero, suc, refl, ap, ap₂, ◌∙◌, sym, Bool, true, false, bit_xor, u8,
  ltb, all, arith, List, [], ◌∷◌, ◌++◌, length,
}
use dan.Bits.{bit_xor-lt, zero-bit_xor}
use dan.Ring.{Ring, insert}
use dan.Storage.Encoder.{
  Encoder, encode_bits, half_pulse, encode_plain, encode_byte, encode_sync, encode_header,
  encode_all,
}
use dan.Storage.Decoder.Frame.{checksum, header, frame}
use dan.Storage.Listener.{ain_buffer_size}
use dan.Storage.Listener.Heard.{at}
use dan.Storage.Listener.Wire.{Wire, write, heard, IsReady}
use dan.Storage.Listener.Roundtrip.{insert_all, bytes_heard, plain_heard, rates}

checksum-lt : (c : ℕ) (bs : List ℕ) → c < 256 → all (λ b. ltb b 256) bs ≡ true → checksum c bs < 256
unfolding checksum all
checksum-lt c [] h k = h
checksum-lt c (b ∷ bs) h k =
    checksum-lt (bit_xor c b) bs (bit_xor-lt 8 c b h (ground arith)) (ground arith)

insert_all-append :
    (xs ys : List ℕ) (r : Ring) → insert_all (xs ++ ys) r ≡ insert_all ys (insert_all xs r)
unfolding insert_all
insert_all-append [] ys r = refl
insert_all-append (x ∷ xs) ys r = insert_all-append xs ys (insert ain_buffer_size x r)

two_bytes : (n : ℕ) → all (λ b. ltb b 256) (u8 (n / 256) ∷ (n % 256) ∷ []) ≡ true
unfolding all
two_bytes n = ground arith

sum :
    (n : ℕ)
    → n < 65536
    → (c : ℕ) → c ≡ 0
    → checksum c (u8 (n / 256) ∷ (n % 256) ∷ []) ≡ bit_xor (n / 256) (n % 256)
unfolding checksum
sum n h c e =
    ap₂ (λ (c b : ℕ). bit_xor (bit_xor c b) (n % 256)) {y = 0} {v = n / 256} e (omega arith)
    ∙ ap (λ (b : ℕ). bit_xor b (n % 256)) (zero-bit_xor (n / 256))

module _ (samplerate : ℕ) where
  abbrev play : ℕ → Encoder Wire → Encoder Wire
  play = encode_byte samplerate (write samplerate)

  bits-parity :
      (n byte : ℕ) (enc : Encoder Wire)
      → (encode_bits samplerate (write samplerate) n byte enc).parity ≡ enc.parity
  unfolding encode_bits half_pulse
  bits-parity zero byte enc = refl
  bits-parity (suc n) byte enc = bits-parity n (byte / 2) _

  plain-parity :
      (byte : ℕ) (enc : Encoder Wire)
      → (encode_plain samplerate (write samplerate) byte enc).parity ≡ enc.parity
  unfolding encode_plain
  plain-parity byte enc = bits-parity 8 byte enc

  all-parity :
      (bs : List ℕ) (enc : Encoder Wire)
      → (encode_all samplerate (write samplerate) bs enc).parity ≡ checksum enc.parity bs
  unfolding encode_all encode_byte encode_plain checksum
  all-parity [] enc = refl
  all-parity (b ∷ bs) enc =
      all-parity bs (play b enc) ∙ ap (λ (p : ℕ). checksum (bit_xor p b) bs) (bits-parity 8 b enc)

  sync-parity :
      (avr : Bool) (enc : Encoder Wire)
      → (encode_sync samplerate (write samplerate) avr enc).parity ≡ 0
  unfolding encode_sync half_pulse
  sync-parity true enc = refl
  sync-parity false enc = refl

  -- A byte of the encoder's own parity.
  parity_heard :
      (enc : Encoder Wire) (r : Ring) (q : ℕ)
      → (samplerate ≡ 15625) ⊎ (samplerate ≡ 44100)
      → enc.parity ≡ q
      → q < 256
      → IsReady samplerate enc
      → heard samplerate enc ≡ at r 0 0
      → (heard samplerate (encode_plain samplerate (write samplerate) enc.parity enc)
          ≡ at (insert ain_buffer_size q r) 0 0)
        × IsReady samplerate (encode_plain samplerate (write samplerate) enc.parity enc)
  parity_heard enc r q rate e small ready h =
      let (m, ready') =
        plain_heard samplerate (rates samplerate rate) enc.parity enc r (omega arith) ready h in
      (m ∙ ap (λ (b : ℕ). at (insert ain_buffer_size b r) 0 0) e, ready')

  module _ (rate : (samplerate ≡ 15625) ⊎ (samplerate ≡ 44100)) (avr : Bool) (enc : Encoder Wire)
      (r : Ring) (ready : IsReady samplerate (encode_sync samplerate (write samplerate) avr enc))
      (h : heard samplerate (encode_sync samplerate (write samplerate) avr enc) ≡ at r 0 0) where
    header-heard :
        (n : ℕ)
        → n < 65536
        → (heard samplerate (encode_header samplerate (write samplerate) avr n enc)
            ≡ at (insert_all (header n []) r) 0 0)
          × IsReady samplerate (encode_header samplerate (write samplerate) avr n enc)
          × ((encode_header samplerate (write samplerate) avr n enc).parity ≡ 0)
    unfolding encode_header encode_all insert_all
    header-heard n small =
        let sync = encode_sync samplerate (write samplerate) avr enc in
        let magic = encode_plain samplerate (write samplerate) 0xff sync in
        let lengths = u8 (n / 256) ∷ (n % 256) ∷ [] in
        let both = encode_all samplerate (write samplerate) lengths magic in
        let (m1, ready1) =
          plain_heard samplerate (rates samplerate rate) 0xff sync r (omega arith) ready h in
        let (m2, ready2) =
          bytes_heard samplerate lengths magic (insert ain_buffer_size 0xff r) rate (two_bytes n)
            ready1 m1 in
        let (m3, ready3) =
          parity_heard both _ (bit_xor (n / 256) (n % 256)) rate
            (all-parity lengths magic
              ∙ sum n small magic.parity (plain-parity 0xff sync ∙ sync-parity avr enc))
            (bit_xor-lt 8 (n / 256) (n % 256) (omega arith) (omega arith)) ready2 m2 in
        (
          m3
              ∙ ap
                  (λ (b : ℕ).
                    at (insert_all (0xff ∷ b ∷ (n % 256) ∷ bit_xor (n / 256) (n % 256) ∷ []) r) 0 0)
                  {x = u8 (n / 256)} {y = n / 256} (omega arith),
          record {
            up = ready3.up;
            level_lem = ready3.level_lem;
            high_lem = ready3.high_lem;
            loud = ready3.loud;
          },
          refl,
        )

    -- What is encoded from the header to the parity byte with which `encode_end` begins comes into
    -- the buffer as the frame that the decoder loads: at both sample rates, on the AVR and
    -- elsewhere, for less than 65536 bytes, if the listener begins a byte and the encoder is about to
    -- change the pin when the synchronization ends.
    pub frame-heard_in_step :
        (bs : List ℕ)
        → length bs < 65536
        → all (λ b. ltb b 256) bs ≡ true
        → let sent =
            encode_all samplerate
              (write samplerate)
              bs
              (encode_header samplerate (write samplerate) avr (length bs) enc) in
          heard samplerate (encode_plain samplerate (write samplerate) sent.parity sent)
          ≡ at (insert_all (frame bs (checksum 0 bs) []) r) 0 0
    frame-heard_in_step bs small bytes =
        let sent = encode_header samplerate (write samplerate) avr (length bs) enc in
        let start = insert_all (header (length bs) []) r in
        let (m1, ready1, none_yet) = header-heard (length bs) small in
        let (m2, ready2) = bytes_heard samplerate bs sent start rate bytes ready1 m1 in
        let (m3, ready3) =
          parity_heard (encode_all samplerate (write samplerate) bs sent) (insert_all bs start)
            (checksum 0 bs) rate (all-parity bs sent ∙ ap (λ (c : ℕ). checksum c bs) none_yet)
            (checksum-lt 0 bs (omega arith) bytes) ready2 m2 in
        m3
        ∙ ap (λ (x : Ring). at x 0 0)
            (unfold insert_all in sym (insert_all-append bs (checksum 0 bs ∷ []) start))
