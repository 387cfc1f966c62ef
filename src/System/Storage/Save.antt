-- ===== src/System/Storage/Save.antt =====
-- What `save` puts for the output to play.
use dan.Prelude.{
  ℕ, zero, suc, ◌+◌, ◌-◌, ◌<◌, ◌≤◌, ◌≡◌, ◌≢◌, refl, ap, ap₂, ◌∙◌, arith, u16, true, some, List, [],
  ◌∷◌, ◌++◌,
}
use dan.Prelude.Int.{pos}
use dan.Vm.Bus.{Bus}
use dan.Memory.Sram.Flat.{replicate}
use dan.Storage.Encoder.{Encoder, encode_header, encode_byte, encode_all, encode_end}
use dan.System.{Machine}
use dan.System.Storage.{save_bytes, save_queue, saved, save_last, save_frame, save, aout_err}

module _ {D : Type 0} (sram : Bus D) where
  -- The bytes of the serial RAM from an address on.
  abbrev pub peeks : D → ℕ → ℕ → List ℕ
  peeks d a zero = []
  peeks d a (suc n) = sram.peek d a ∷ peeks d (a + 1) n

  -- The byte that a round reads, and the address of the next.
  round :
      (n start : ℕ) (d : D) (errors : List ℕ) (enc : Encoder (List ℕ))
      → start < 65536
      → save_bytes sram (suc n) start d (0 ∷ errors) enc
        ≡ save_bytes sram n
            (u16 (start + 1))
            d
            errors
            (encode_byte 15625 save_queue (sram.peek d start) enc)
  unfolding save_bytes
  round n start d errors enc small =
      ap
        (λ (b : ℕ).
          save_bytes sram n (u16 (start + 1)) d errors (encode_byte 15625 save_queue b enc))
        (sram.ram_read_lem d start 1 0 (omega arith) (omega arith) ∙ ap (sram.peek d) (omega arith))

  next_address :
      (n start : ℕ) (d : D) (errors : List ℕ) (enc : Encoder (List ℕ))
      → start + suc n ≤ 65536
      → save_bytes sram n (u16 (start + 1)) d errors enc
        ≡ save_bytes sram n (start + 1) d errors enc
  next_address zero start d errors enc h = unfold save_bytes in refl
  next_address (suc n) start d errors enc h =
      ap (λ (a : ℕ). save_bytes sram (suc n) a d errors enc) (omega arith)

  -- The bytes up to the first error.
  save_bytes-all :
      (n start : ℕ) (d : D) (errors : List ℕ) (enc : Encoder (List ℕ))
      → start + n ≤ 65536
      → save_bytes sram n start d (replicate n 0 ++ errors) enc
        ≡ (encode_all 15625 save_queue (peeks d start n) enc, errors)
  unfolding encode_all replicate
  save_bytes-all zero start d errors enc h = unfold save_bytes in refl
  save_bytes-all (suc n) start d errors enc h =
      round n start d (replicate n 0 ++ errors) enc (omega arith)
      ∙ next_address n start d (replicate n 0 ++ errors)
          (encode_byte 15625 save_queue (sram.peek d start) enc) (omega arith)
      ∙ save_bytes-all n (start + 1) d errors (encode_byte 15625 save_queue (sram.peek d start) enc)
          (omega arith)

  save_bytes-stops :
      (k n start : ℕ) (d : D) (e : ℕ) (errors : List ℕ) (enc : Encoder (List ℕ))
      → k < n
      → e ≢ 0
      → start + n ≤ 65536
      → save_bytes sram n start d (replicate k 0 ++ e ∷ errors) enc
        ≡ (encode_all 15625 save_queue (peeks d start k) enc, errors)
  unfolding encode_all replicate
  save_bytes-stops k zero start d e errors enc lt ne h = absurd (omega arith)
  save_bytes-stops zero (suc n) start d e errors enc lt ne h = unfold save_bytes in ground arith
  save_bytes-stops (suc k) (suc n) start d e errors enc lt ne h =
      round n start d (replicate k 0 ++ e ∷ errors) enc (omega arith)
      ∙ next_address n start d (replicate k 0 ++ e ∷ errors)
          (encode_byte 15625 save_queue (sram.peek d start) enc) (omega arith)
      ∙ save_bytes-stops k n (start + 1) d e errors
          (encode_byte 15625 save_queue (sram.peek d start) enc) (omega arith) ne (omega arith)

  -- The header.
  abbrev pub head : ℕ → Machine D → Encoder (List ℕ)
  head n m =
      encode_header 15625 save_queue true n
        (record { volume = 32000; parity = 0; level = pos 1; param = m.sent })

  -- The header, and data behind it.
  abbrev pub header_and : ℕ → List ℕ → Machine D → Encoder (List ℕ)
  header_and n bytes m = encode_all 15625 save_queue bytes (head n m)

  module _ (font : ℕ → ℕ) (start end : ℕ) (m : Machine D) (ordered : start ≤ end)
      (small : end < 65536) where
    length_lem : u16 (end + 65536 - start) ≡ end - start
    length_lem = omega arith

    sent_as :
        (errors : List ℕ)
        → m.errors ≡ errors
        → save_frame sram font start end true m
          ≡ saved sram font (end - start) true m (
              save_last
                (save_bytes sram (end - start) start m.console.sram errors (head (end - start) m)))
    unfolding save_frame
    sent_as errors h =
        ap₂
          (λ (n : ℕ) (es : List ℕ).
            saved sram font n true m
              (save_last (save_bytes sram n start m.console.sram es (head n m))))
          length_lem h

    saved-ok :
        (n : ℕ) (enc : Encoder (List ℕ)) (errors : List ℕ)
        → saved sram font n true m (save_last (enc, 0 ∷ 0 ∷ errors))
          ≡ (0, record m { errors = errors; sent = (encode_end 15625 save_queue enc).param })
    unfolding saved save_last aout_err
    saved-ok n enc errors = refl

    saved-err :
        (n e : ℕ) (enc : Encoder (List ℕ)) (errors : List ℕ)
        → e ≢ 0
        → saved sram font n true m (save_last (enc, e ∷ e ∷ errors))
          ≡ (1, record m { errors = errors; sent = enc.param })
    unfolding saved save_last aout_err
    saved-err n e enc errors ne = ground arith

    -- Called without messages (quiet), from a start that is not behind the end, and with no output
    -- error at any test, `save` puts a whole frame, the header with the number of bytes, the bytes of
    -- the serial RAM from the start to before the end, and the end, and returns 0.
    pub save-plays :
        (errors : List ℕ)
        → m.errors ≡ replicate (end - start) 0 ++ 0 ∷ 0 ∷ errors
        → (m' : Machine D) × (save sram font start end true m ≡ some (0, m'))
          × (m'.sent
              ≡ (encode_end 15625 save_queue
                  (header_and (end - start) (peeks m.console.sram start (end - start)) m)).param)
    unfolding save
    save-plays errors h =
        let n = end - start in
        let ends = header_and n (peeks m.console.sram start n) m in
        (
          record m { errors = errors; sent = (encode_end 15625 save_queue ends).param },
          ap (λ (r : ℕ × Machine D). some r)
              (sent_as (replicate n 0 ++ 0 ∷ 0 ∷ errors) h
                ∙ ap (λ (r : Encoder (List ℕ) × List ℕ). saved sram font n true m (save_last r))
                    (save_bytes-all n start m.console.sram (0 ∷ 0 ∷ errors) (head n m)
                      (omega arith))
                ∙ saved-ok n ends errors),
          refl,
        )

    -- Called without messages (quiet), where the test before the byte with a number is the first that
    -- finds an output error, and those behind it find it too, `save` has put the header and the bytes
    -- before that one with `ain_put`, each call of which is taken to return, puts nothing more, and
    -- returns 1. Samples that it has put and that were not played before the error may never be.
    pub save-stops :
        (k e : ℕ) (errors : List ℕ)
        → k < end - start
        → e ≢ 0
        → m.errors ≡ replicate k 0 ++ e ∷ e ∷ e ∷ errors
        → (m' : Machine D) × (save sram font start end true m ≡ some (1, m'))
          × (m'.sent ≡ (header_and (end - start) (peeks m.console.sram start k) m).param)
    unfolding save
    save-stops k e errors lt ne h =
        let n = end - start in
        let ends = header_and n (peeks m.console.sram start k) m in
        (
          record m { errors = errors; sent = ends.param },
          ap (λ (r : ℕ × Machine D). some r)
              (sent_as (replicate k 0 ++ e ∷ e ∷ e ∷ errors) h
                ∙ ap (λ (r : Encoder (List ℕ) × List ℕ). saved sram font n true m (save_last r))
                    (save_bytes-stops k n start m.console.sram e (e ∷ e ∷ errors) (head n m) lt ne
                      (omega arith))
                ∙ saved-err n e ends errors ne),
          refl,
        )
