-- ===== src/Storage/Decoder/Outcome.antt =====
-- Which frames `load` accepts.
use dan.Prelude.{ℕ, ◌+◌, ◌<◌, ◌≡◌, ◌≢◌, refl, ap, ◌∙◌, arith, bit_xor, List, [], ◌∷◌, ◌++◌, length}
use dan.Prelude.Int.{pos, negsuc}
use dan.Bits.Swap.{bit_xor_comm, bit_xor-cancel}
use dan.Storage.Decoder.{Decoder, init_decoder, decode, receive, load_status}
use dan.Storage.Decoder.Frame.{
  checksum, frame, at, stored, data_received, header_received, go_on, complete, give_up,
}

module _ {P : Type 0} (write : ℕ → P → P) where
  module _ (len par count : ℕ) (p : P) (q : ℕ) (rest : List ℕ) where
    parity_matches :
        q ≡ par
        → receive write (at (pos 6) len par count p) (q ∷ rest) ≡ (at (pos 7) len par count p, rest)
    parity_matches h =
        complete write (at (pos 6) len par count p) _ q rest (unfold decode in ground arith) refl

    parity_differs :
        q ≢ par
        → receive write (at (pos 6) len par count p) (q ∷ rest)
          ≡ (at (negsuc 5) len par count p, rest)
    parity_differs h =
        give_up write (at (pos 6) len par count p) _ q 5 rest (unfold decode in ground arith)

  module _ (p : P) (b : ℕ) (bs : List ℕ) (fits : length (b ∷ bs) < 65536) where
    abbrev bytes : List ℕ
    bytes = b ∷ bs

    before_parity :
        (q : ℕ) (rest : List ℕ)
        → receive write (init_decoder p) (frame bytes q rest)
          ≡ receive write
              (at (pos 6) (length bytes) (checksum 0 bytes) (length bytes) (stored write p bytes))
              (q ∷ rest)
    before_parity q rest =
        header_received write (length bytes) p fits (bytes ++ q ∷ rest)
        ∙ data_received write bs b (length bytes) 0 0 p (q ∷ rest) fits (omega arith)

    -- A frame of at least one byte and below 65536 bytes whose last byte is the exclusive or of the
    -- data is loaded: all data go to the callback in order, the bytes behind the frame are left
    -- unread, and the decoder ends in its last stage, so that `load` returns 0.
    pub frame-loads :
        (rest : List ℕ)
        → let (dec, left) =
            receive write (init_decoder p) (frame (b ∷ bs) (checksum 0 (b ∷ bs)) rest) in
          (dec.control ≡ pos 7)
          × (dec.param ≡ stored write p (b ∷ bs))
          × (dec.len ≡ length (b ∷ bs))
          × (load_status dec ≡ 0)
          × (left ≡ rest)
    frame-loads rest =
        let whole =
          before_parity (checksum 0 bytes) rest
          ∙ parity_matches (length bytes) (checksum 0 bytes) (length bytes) (stored write p bytes)
              (checksum 0 bytes) rest refl in
        (
          ap (λ (d : Decoder P × List ℕ). d.0.control) whole,
          ap (λ (d : Decoder P × List ℕ). d.0.param) whole,
          ap (λ (d : Decoder P × List ℕ). d.0.len) whole,
          ap (λ (d : Decoder P × List ℕ). load_status d.0) whole ∙ unfold load_status in refl,
          ap (λ (d : Decoder P × List ℕ). d.1) whole,
        )

    -- With any other last byte the decoder ends with the error of its stage and `load` returns 250.
    wrong_parity :
        (q : ℕ) (rest : List ℕ)
        → q ≢ checksum 0 bytes
        → let dec = (receive write (init_decoder p) (frame bytes q rest)).0 in
          (dec.control ≡ negsuc 5) × (load_status dec ≡ 250)
    wrong_parity q rest h =
        let whole =
          before_parity q rest
          ∙ parity_differs (length bytes) (checksum 0 bytes) (length bytes) (stored write p bytes) q
              rest h in
        (
          ap (λ (d : Decoder P × List ℕ). d.0.control) whole,
          ap (λ (d : Decoder P × List ℕ). load_status d.0) whole ∙ unfold load_status in refl,
        )

checksum-cancel : (bs : List ℕ) (c d : ℕ) → checksum c bs ≡ checksum d bs → c ≡ d
unfolding checksum
checksum-cancel [] c d h = h
checksum-cancel (b ∷ bs) c d h =
    bit_xor-cancel c d b (checksum-cancel bs (bit_xor c b) (bit_xor d b) h)

-- Two lists that differ in one byte have different sums.
checksum-replace :
    (xs : List ℕ) (c x y : ℕ) (ys : List ℕ)
    → checksum c (xs ++ x ∷ ys) ≡ checksum c (xs ++ y ∷ ys)
    → x ≡ y
unfolding checksum
checksum-replace [] c x y ys h =
    bit_xor-cancel x y c
      (bit_xor_comm x c ∙ checksum-cancel ys (bit_xor c x) (bit_xor c y) h ∙ bit_xor_comm c y)
checksum-replace (b ∷ xs) c x y ys h = checksum-replace xs (bit_xor c b) x y ys h

module _ {P : Type 0} (write : ℕ → P → P) (p : P) where
  -- One byte of the data that arrives as another byte, the rest of the frame being right, is always
  -- found: the decoder ends with an error and `load` returns 250.
  pub damaged-refused :
      (before : List ℕ) (sent got : ℕ) (after rest : List ℕ)
      → sent ≢ got
      → length (before ++ got ∷ after) < 65536
      → let dec =
          (receive write
            (init_decoder p)
            (frame (before ++ got ∷ after) (checksum 0 (before ++ sent ∷ after)) rest)).0 in
        (dec.control ≡ negsuc 5) × (load_status dec ≡ 250)
  damaged-refused [] sent got after rest ne fits =
      wrong_parity write p got after fits _ rest (λ e. ne (checksum-replace [] 0 sent got after e))
  damaged-refused (b ∷ before) sent got after rest ne fits =
      wrong_parity write p b (before ++ got ∷ after) fits _ rest
        (λ e. ne (checksum-replace (b ∷ before) 0 sent got after e))

  still_data :
      (bs : List ℕ) (parity count : ℕ) (q : P)
      → count + length bs < 65536
      → (receive write (at (pos 5) 0 parity count q) bs).0.control ≡ pos 5
  still_data [] parity count q h = unfold receive in refl
  still_data (b ∷ bs) parity count q h =
      ap (λ (d : Decoder P × List ℕ). d.0.control)
        (go_on write (at (pos 5) 0 parity count q)
          (at (pos 5) 0 (bit_xor parity b) (count + 1) (write b q)) b bs
          (unfold decode in ground arith) refl)
      ∙ still_data bs (bit_xor parity b) (count + 1) (write b q) (omega arith)

  -- A frame of no data is not complete with its last byte, nor with up to 65534 bytes behind it:
  -- the decoder waits for data, and `load` returns 5 when it times out.
  pub empty_frame-waits :
      (rest : List ℕ)
      → length rest < 65535
      → let dec = (receive write (init_decoder p) (frame [] (checksum 0 []) rest)).0 in
        (dec.control ≡ pos 5) × (load_status dec ≡ 5)
  unfolding checksum
  empty_frame-waits rest h = (waits, status _ waits)
    where
      waits : (receive write (init_decoder p) (frame [] 0 rest)).0.control ≡ pos 5
      waits =
          ap (λ (d : Decoder P × List ℕ). d.0.control)
            (header_received write 0 p (omega arith) (0 ∷ rest))
          ∙ still_data (0 ∷ rest) 0 0 p (omega arith)

      status : (d : Decoder P) → d.control ≡ pos 5 → load_status d ≡ 5
      status d e = unfold load_status in rw e refl
