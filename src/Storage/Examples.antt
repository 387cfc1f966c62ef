-- ===== src/Storage/Examples.antt =====
-- Frames of two and of no bytes, and the theorems about them.
use dan.Prelude.{ℕ, ◌≡◌, refl, inl, true, all, arith, List, [], ◌∷◌}
use dan.Prelude.Int.{pos, negsuc}
use dan.Ring.{Ring}
use dan.Storage.Listener.Sync.{frame-heard, sync_changes}
use dan.Storage.Encoder.{encode_header, encode_plain, Encoder, encode_all}
use dan.Storage.Listener.{Listener, ain_on, listen}
use dan.Storage.Listener.Heard
use dan.Storage.Listener.Wire.{Wire, write, heard}
use dan.Storage.Listener.Roundtrip.{insert_all}
use dan.Storage.Decoder.{init_decoder, decode, receive, load_status}
use dan.Storage.Decoder.Frame.{checksum, frame, stored}
use dan.Storage.Decoder.Outcome.{frame-loads, damaged-refused, empty_frame-waits}

-- The callback that keeps the bytes, the last one first.
abbrev keep : ℕ → List ℕ → List ℕ
keep b bs = b ∷ bs

loads_two :
    (receive keep (init_decoder []) (0xff ∷ 0 ∷ 2 ∷ 2 ∷ 0x41 ∷ 0x42 ∷ 3 ∷ [])).0.param
    ≡ 0x42 ∷ 0x41 ∷ []
unfolding receive decode init_decoder
loads_two = refl

stops_at_magic : (receive keep (init_decoder []) (0xfe ∷ 0 ∷ [])).0.control ≡ negsuc 0
unfolding receive decode init_decoder
stops_at_magic = refl

frame-loads_example :
    let (dec, left) =
      receive keep
        (init_decoder [])
        (frame (0x41 ∷ 0x42 ∷ []) (checksum 0 (0x41 ∷ 0x42 ∷ [])) (9 ∷ [])) in
    (dec.control ≡ pos 7)
    × (dec.param ≡ stored keep [] (0x41 ∷ 0x42 ∷ []))
    × (dec.len ≡ 2)
    × (load_status dec ≡ 0)
    × (left ≡ 9 ∷ [])
frame-loads_example = frame-loads keep [] 0x41 (0x42 ∷ []) (omega arith) (9 ∷ [])

damaged-refused_example :
    let dec =
      (receive keep
        (init_decoder [])
        (frame (0x41 ∷ 0x43 ∷ []) (checksum 0 (0x41 ∷ 0x42 ∷ [])) (9 ∷ []))).0 in
    (dec.control ≡ negsuc 5) × (load_status dec ≡ 250)
damaged-refused_example =
    damaged-refused keep [] (0x41 ∷ []) 0x42 0x43 [] (9 ∷ []) (λ e. omega arith) (omega arith)

empty_frame-waits_example :
    let dec = (receive keep (init_decoder []) (frame [] (checksum 0 []) (1 ∷ 2 ∷ []))).0 in
    (dec.control ≡ pos 5) × (load_status dec ≡ 5)
empty_frame-waits_example = empty_frame-waits keep [] (1 ∷ 2 ∷ []) (omega arith)

abbrev no_bytes : Ring
no_bytes = record { buffer = λ _. 0; start = 0; stop = 0 }

-- The listener that `ain_on` leaves, and what it has heard before the header: two changes of the pin.
abbrev silent : Listener
silent = record { ain = no_bytes; sync = 0; bit = 0; byte = 0 }

abbrev early : List ℕ
early = 200 ∷ 3 ∷ []

-- On the AVR, with the pin high.
abbrev saver : Encoder Wire
saver = record {
  volume = 32000;
  parity = 0;
  level = pos 1;
  param = record { high = true; time = 5; ear = listen early (ain_on silent) };
}

frame-heard_example :
    let sent =
      encode_all 15625
        (write 15625)
        (0x41 ∷ 0x42 ∷ [])
        (encode_header 15625 (write 15625) true 2 saver) in
    heard 15625 (encode_plain 15625 (write 15625) sent.parity sent)
    ≡ Heard.at
        (insert_all (frame (0x41 ∷ 0x42 ∷ []) (checksum 0 (0x41 ∷ 0x42 ∷ [])) []) no_bytes)
        0
        0
unfolding all sync_changes ain_on
frame-heard_example =
    frame-heard 15625 (inl refl) true saver silent early (omega arith) refl refl (0x41 ∷ 0x42 ∷ [])
      (omega arith) refl
