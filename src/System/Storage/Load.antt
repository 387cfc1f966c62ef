-- ===== src/System/Storage/Load.antt =====
-- A frame on the tape comes into the memory.
use dan.Prelude.{
  ◌≢◌, ◌++◌, ℕ, ◌+◌, ◌-◌, ◌<◌, ◌≤◌, ◌≡◌, ltb, ap, ◌∙◌, arith, if◌then◌else◌, u8, true, some, List,
  [], ◌∷◌, length, byte,
}
use dan.Vm.Bus.{Bus}
use dan.Vm.FlatRam.{byte_head, byte_tail}
use dan.Console.Screen.{one_byte}
use dan.Storage.Decoder.Frame.{checksum, frame, stored}
use dan.Storage.Decoder.Outcome.{frame-loads, damaged-refused}
use dan.System.{Machine}
use dan.System.Storage.{load_data_write, load_frame, load}

module _ {D : Type 0} (sram : Bus D) where
  -- The bytes of a list from an address on, over what the serial RAM holds.
  abbrev pub loaded : D → ℕ → List ℕ → ℕ → ℕ
  loaded d a bs p =
      if ltb p a
      then sram.peek d p
      else if ltb p (a + length bs)
      then u8 (byte bs (p - a))
      else sram.peek d p

  stored-loaded :
      (bs : List ℕ) (a : ℕ) (d : D) (p : ℕ)
      → a + length bs ≤ 65536
      → sram.peek (stored (load_data_write sram) (a, d) bs).1 p ≡ loaded d a bs p
  unfolding stored load_data_write
  stored-loaded [] a d p h = ground arith
  stored-loaded (b ∷ []) a d p h =
      one_byte sram d a b p (omega arith) ∙ ground (arith, byte_head b [] (p - a))
  stored-loaded (b ∷ c ∷ bs) a d p h =
      ap
        (λ (n : ℕ).
          sram.peek (stored (load_data_write sram) (n, sram.ram_write d a (b ∷ [])) (c ∷ bs)).1 p)
        {y = a + 1} (omega arith)
      ∙ stored-loaded (c ∷ bs) (a + 1) (sram.ram_write d a (b ∷ [])) p (omega arith)
      ∙ ground (
        arith,
        one_byte sram d a b p (omega arith),
        byte_head b (c ∷ bs) (p - a),
        byte_tail b (c ∷ bs) (p - a),
        ap {A = ℕ} (byte (c ∷ bs)) {x = p - a - 1} {y = p - (a + 1)} (omega arith),
      )

  module _ (font : ℕ → ℕ) (dest : ℕ) (m : Machine D) (rest : List ℕ) (tapes : List (List ℕ)) where
    -- Called without messages (quiet, as the system call 0x01 does), with an address other than 0, a
    -- tape with a frame of 1 to 65535 bytes that fits behind the address is loaded: `load` returns 0,
    -- the data stand at the address, and the rest of the serial RAM is as it was.
    pub load-frame :
        (b : ℕ) (bs : List ℕ) (p : ℕ)
        → 1 ≤ dest
        → dest + length (b ∷ bs) ≤ 65536
        → m.tapes ≡ frame (b ∷ bs) (checksum 0 (b ∷ bs)) rest ∷ tapes
        → (m' : Machine D) × (load sram font dest true m ≡ some (0, m'))
          × (sram.peek m'.console.sram p ≡ loaded m.console.sram dest (b ∷ bs) p)
    unfolding load load_frame
    load-frame b bs p some_dest fits h =
        let (_, param, _, status, _) =
          frame-loads (load_data_write sram) (dest, m.console.sram) b bs (omega arith) rest in
        (
          (load_frame sram font dest true m).1,
          ap (λ (s : ℕ). some (s, (load_frame sram font dest true m).1)) (rw h status),
          rw h (
              ap (λ (r : ℕ × D). sram.peek r.1 p) param
              ∙ stored-loaded (b ∷ bs) dest m.console.sram p fits),
        )

    -- A byte of the data that arrives changed makes `load` return 250.
    pub load-damaged :
        (before : List ℕ) (sent got : ℕ) (after : List ℕ)
        → sent ≢ got
        → length (before ++ got ∷ after) < 65536
        → m.tapes ≡ frame (before ++ got ∷ after) (checksum 0 (before ++ sent ∷ after)) rest ∷ tapes
        → (m' : Machine D) × (load sram font dest true m ≡ some (250, m'))
    unfolding load load_frame
    load-damaged before sent got after ne fits h =
        let (_, status) =
          damaged-refused (load_data_write sram) (dest, m.console.sram) before sent got after rest
            ne fits in
        (
          (load_frame sram font dest true m).1,
          ap (λ (s : ℕ). some (s, (load_frame sram font dest true m).1)) (rw h status),
        )
