-- ===== src/Storage/Decoder/Frame.antt =====
-- What the decoder makes of a frame.
use dan.Prelude.{
  ℕ, ◌+◌, ◌*◌, ◌/◌, ◌%◌, ◌<◌, ◌≡◌, ◌==◌, true, false, refl, ap, ◌∙◌, u16, arith, bit_or, bit_xor,
  List, [], ◌∷◌, ◌++◌, length,
}
use dan.Prelude.Int.{ℤ, pos, negsuc}
use dan.Bits.{bit_or_fields, zero-bit_xor}
use dan.Bits.Swap.{bit_or_comm}
use dan.Storage.Decoder.{Decoder, c_end, label, init_decoder, decode, after, receive}

-- The exclusive or of a list of bytes with a start.
unfoldable pub checksum : ℕ → List ℕ → ℕ
checksum c [] = c
checksum c (b ∷ bs) = checksum (bit_xor c b) bs

abbrev pub header : ℕ → List ℕ → List ℕ
header n body = 0xff ∷ (n / 256) ∷ (n % 256) ∷ bit_xor (n / 256) (n % 256) ∷ body

-- A frame with a given byte in the place of the parity of the data, and what follows it.
abbrev pub frame : List ℕ → ℕ → List ℕ → List ℕ
frame bytes parity rest = header (length bytes) (bytes ++ parity ∷ rest)

module _ {P : Type 0} where
  abbrev pub at : ℤ → ℕ → ℕ → ℕ → P → Decoder P
  at control len parity count param = record {
    control = control;
    len = len;
    parity = parity;
    count = count;
    param = param;
  }

module _ {P : Type 0} (write : ℕ → P → P) where
  -- The data handed to the callback one after the other.
  unfoldable pub stored : P → List ℕ → P
  stored p [] = p
  stored p (b ∷ bs) = stored (write b p) bs

  pub go_on :
      (dec dec' : Decoder P) (b : ℕ) (bs : List ℕ)
      → decode write dec b ≡ (dec', pos 0)
      → (label dec'.control == c_end) ≡ false
      → receive write dec (b ∷ bs) ≡ receive write dec' bs
  unfolding receive
  go_on dec dec' b bs h more =
      ap (λ (r : Decoder P × ℤ). after r bs (receive write r.0 bs)) h ∙ rw more refl

  pub complete :
      (dec dec' : Decoder P) (b : ℕ) (bs : List ℕ)
      → decode write dec b ≡ (dec', pos 0)
      → (label dec'.control == c_end) ≡ true
      → receive write dec (b ∷ bs) ≡ (dec', bs)
  unfolding receive
  complete dec dec' b bs h end =
      ap (λ (r : Decoder P × ℤ). after r bs (receive write r.0 bs)) h ∙ rw end refl

  pub give_up :
      (dec dec' : Decoder P) (b n : ℕ) (bs : List ℕ)
      → decode write dec b ≡ (dec', negsuc n)
      → receive write dec (b ∷ bs) ≡ (dec', bs)
  unfolding receive
  give_up dec dec' b n bs h = ap (λ (r : Decoder P × ℤ). after r bs (receive write r.0 bs)) h

  module _ (len parity count : ℕ) (p : P) (b : ℕ) (word : len < 65536) where
    store_last :
        count + 1 ≡ len
        → decode write (at (pos 5) len parity count p) b
          ≡ (at (pos 6) len (bit_xor parity b) len (write b p), pos 0)
    unfolding decode
    store_last h = ground arith

    store_more :
        count + 1 < len
        → decode write (at (pos 5) len parity count p) b
          ≡ (at (pos 5) len (bit_xor parity b) (count + 1) (write b p), pos 0)
    unfolding decode
    store_more h = ground arith

  -- The data of a frame, up to the byte behind it.
  pub data_received :
      (bs : List ℕ) (b len parity count : ℕ) (p : P) (rest : List ℕ)
      → len < 65536
      → count + length (b ∷ bs) ≡ len
      → receive write (at (pos 5) len parity count p) (b ∷ bs ++ rest)
        ≡ receive write (at (pos 6) len (checksum parity (b ∷ bs)) len (stored p (b ∷ bs))) rest
  unfolding checksum stored
  data_received [] b len parity count p rest word h =
      go_on _ _ b rest (store_last len parity count p b word (omega arith)) refl
  data_received (c ∷ bs) b len parity count p rest word h =
      go_on _ _ b (c ∷ bs ++ rest) (store_more len parity count p b word (omega arith)) refl
      ∙ data_received bs c len (bit_xor parity b) (count + 1) (write b p) rest word (omega arith)

  module _ (n : ℕ) (p : P) (word : n < 65536) where
    magic_accepted : decode write (at (pos 1) 0 0 0 p) 0xff ≡ (at (pos 2) 0 0 0 p, pos 0)
    unfolding decode
    magic_accepted = refl

    len0_accepted :
        decode write (at (pos 2) 0 0 0 p) (n / 256) ≡ (at (pos 3) (n / 256) (n / 256) 0 p, pos 0)
    unfolding decode
    len0_accepted = rw (zero-bit_xor (n / 256)) refl

    len1_accepted :
        decode write (at (pos 3) (n / 256) (n / 256) 0 p) (n % 256)
        ≡ (at (pos 4) n (bit_xor (n / 256) (n % 256)) 0 p, pos 0)
    unfolding decode
    len1_accepted = ap (λ (m : ℕ). (at (pos 4) m (bit_xor (n / 256) (n % 256)) 0 p, pos 0)) joined
      where
        joined : u16 (bit_or (n / 256 * 256) (n % 256)) ≡ n
        joined = omega (
          arith,
          bit_or_comm (n / 256 * 256) (n % 256),
          bit_or_fields 8 (n / 256) (n % 256) (omega arith),
        )

    parity_accepted :
        (par : ℕ) → decode write (at (pos 4) n par 0 p) par ≡ (at (pos 5) n 0 0 p, pos 0)
    unfolding decode
    parity_accepted par = ground arith

    pub header_received :
        (rest : List ℕ)
        → receive write (init_decoder p) (header n rest) ≡ receive write (at (pos 5) n 0 0 p) rest
    unfolding init_decoder
    header_received rest =
        go_on _ _ 0xff _ magic_accepted refl
        ∙ go_on _ _ (n / 256) _ len0_accepted refl
        ∙ go_on _ _ (n % 256) _ len1_accepted refl
        ∙ go_on _ _ (bit_xor (n / 256) (n % 256)) rest (parity_accepted _) refl
