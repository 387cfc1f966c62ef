-- ===== src/Vm/Ops/Stack/Pairs.antt =====
-- What is pushed comes back: the instructions of the stack in pairs.
use dan.Prelude.{
  ℕ, ◌+◌, ◌-◌, ◌*◌, ◌/◌, ◌%◌, ◌≤◌, ◌<◌, ◌≡◌, ◌↔◌, refl, ap, ◌∙◌, u8, u16, arith, bit_or, List, [],
  ◌∷◌, byte, length,
}
use dan.Bits.{bit_or_fields, le-bit_or}
use native.Mathlib.Decide.{dec_lt, dec_le}
use native.Mathlib.Nat.{add-zero}
use dan.Vm.Bus.{Bus}
use dan.Vm.Flags.{addr16, set_nz}
use dan.Vm.State.{Vm, IsValid}
use dan.Vm.Alu.Bytes.{IsByte, or_IsByte}
use dan.Vm.Operand.{read_byte, read_word}
use dan.Vm.Ops.Stack.{
  stack_below, stack_above, pushed_status, push, pull, pha, pla, php, plp, jsr, rts, brk, rti,
}

-- `addr16` of two bytes is the word, low byte first.
pub addr16_lem : (x y : ℕ) → IsByte x → addr16 x y ≡ y * 256 + x
unfolding addr16
addr16_lem x y h = omega (arith, bit_or_fields 8 y x h)

stack_below_lem : (k sp : ℕ) → k ≤ sp → sp < 256 → stack_below k sp ≡ 256 + sp - k
unfolding stack_below
stack_below_lem k sp hk hs = rw (addr16_lem (u16 (sp + 65536 - k)) 1 (omega arith)) (omega arith)

-- The address below the stack pointer is in the stack page exactly when the subtraction does not
-- go below 0; otherwise it is in the last page of the memory.
pub stack_below_iff :
    (k sp : ℕ)
    → k ≤ 3
    → sp < 256
    → ((stack_below k sp < 512) ↔ (k ≤ sp)) × ((0xff00 ≤ stack_below k sp) ↔ (sp < k))
stack_below_iff k sp hk hs = elim (dec_le k sp) [
  | yes h ↦ (
    (λ _. h, λ _. omega (arith, stack_below_lem k sp h hs)),
    (λ w. absurd (omega (arith, stack_below_lem k sp h hs)), λ w. absurd (omega arith)),
  )
  | no h ↦ (
    (λ w. absurd (omega (arith, wrapped h)), λ w. absurd (h w)),
    (λ _. omega arith, λ _. omega (arith, wrapped h)),
  )
]
  where
    wrapped : ¬ (k ≤ sp) → 0xff00 ≤ stack_below k sp
    wrapped h = unfold stack_below addr16 in omega (arith, le-bit_or (u16 (sp + 65536 - k)) 256)

stack_above_lem : (sp : ℕ) → sp < 256 → stack_above sp ≡ 256 + (sp + 1) % 256
unfolding stack_above addr16
stack_above_lem sp h = elim (dec_lt sp 255) [
  | yes k ↦ omega (arith, bit_or_fields 8 1 (sp + 1) (omega arith))
  | no k ↦ let top : sp ≡ 255 = omega arith in rw top refl
]

pushed-IsByte : (s : ℕ) → IsByte s → IsByte (bit_or (bit_or s 0x20) 0x10)
pushed-IsByte s h = or_IsByte _ _ (or_IsByte _ _ h (omega arith)) (omega arith)

module _ {M : Type 0} (bus : Bus M) where
  -- A read of what was just written.
  read_written :
      (m : M) (a : ℕ) (bs : List ℕ) (i : ℕ)
      → a + length bs ≤ 65536
      → i < length bs
      → bus.peek (bus.ram_write m a bs) (a + i) ≡ u8 (byte bs i)
  read_written m a bs i h k =
      bus.ram_write_lem m a bs (a + i) h
      ∙ ground (arith, ap {A = ℕ} (byte bs) {x = a + i - a} {y = i} (omega arith))

  read_byte_written :
      (m m' : M) (a v : ℕ)
      → a < 65536
      → bus.peek m' a ≡ bus.peek (bus.ram_write m a (v ∷ [])) a
      → read_byte bus m' a ≡ u8 v
  unfolding read_byte
  read_byte_written m m' a v h same = omega (
    arith,
    bus.ram_read_lem m' a 1 0 (omega arith) (omega arith),
    read_written m a (v ∷ []) 0 (omega arith) (omega arith),
    ap (bus.peek m') (add-zero a),
    ap (bus.peek (bus.ram_write m a (v ∷ []))) (add-zero a),
  )

  -- The cells from `a` on, `n` of them, are in `m'` what they are in `m`.
  abbrev pub SameCells : M → M → ℕ → ℕ → Type 0
  SameCells m' m a n = (i : ℕ) → i < n → bus.peek m' (a + i) ≡ bus.peek m (a + i)

  -- A byte of a transfer that was written before.
  byte_written :
      (m m' : M) (a : ℕ) (bs : List ℕ) (i : ℕ)
      → a + length bs ≤ 65536
      → i < length bs
      → SameCells m' (bus.ram_write m a bs) a (length bs)
      → byte (bus.ram_read m' a (length bs)) i ≡ u8 (byte bs i)
  byte_written m m' a bs i h k same =
      bus.ram_read_lem m' a (length bs) i h k ∙ same i k ∙ read_written m a bs i h k

  read_word_written :
      (m m' : M) (a w : ℕ)
      → a + 2 ≤ 65536
      → w < 65536
      → SameCells m' (bus.ram_write m a (u8 w ∷ (w / 256) ∷ [])) a 2
      → read_word bus m' a ≡ w
  unfolding read_word
  read_word_written m m' a w h k same =
      let at = λ (i : ℕ) (l : i < 2). byte_written m m' a (u8 w ∷ (w / 256) ∷ []) i h l same in
      rw (at 0 (omega arith), at 1 (omega arith))
        (addr16_lem (u8 (u8 w)) (u8 (w / 256)) (omega arith) ∙ omega arith)

  module _ (vm vm' : Vm M) (v : IsValid vm) where
    -- What is pulled is what was pushed, if the pointer and the pushed cell are as the push left
    -- them.
    pull_pushed :
        (x : ℕ)
        → vm'.r_sp ≡ (push bus x vm).r_sp
        → SameCells vm'.ram (push bus x vm).ram (256 + vm.r_sp) 1
        → (pull bus vm' ≡ u8 x) × (u8 (vm'.r_sp + 1) ≡ vm.r_sp)
    unfolding push pull
    pull_pushed x e same = (
      rw pointer (
          rw at_page (
            byte_written vm.ram vm'.ram (256 + vm.r_sp) (x ∷ []) 0 (omega arith) (omega arith)
              (λ i k.
                same i k
                ∙ ap (λ (a : ℕ). bus.peek (bus.ram_write vm.ram a (x ∷ [])) (256 + vm.r_sp + i))
                    at_page))),
      pointer,
    )
      where
        pointer : u8 (vm'.r_sp + 1) ≡ vm.r_sp
        pointer = omega arith

        at_page : addr16 vm.r_sp 1 ≡ 256 + vm.r_sp
        at_page = addr16_lem vm.r_sp 1 v.sp_byte ∙ omega arith

    -- PLA after PHA: the accumulator and the stack pointer are back, and N and Z are set from the
    -- accumulator. The code in between may do anything but move the pointer for good or change the
    -- pushed cell.
    pub pla-pha :
        vm'.r_sp ≡ (pha bus vm).r_sp
        → SameCells vm'.ram (pha bus vm).ram (256 + vm.r_sp) 1
        → ((pla bus vm').r_a ≡ vm.r_a)
          × ((pla bus vm').r_sp ≡ vm.r_sp)
          × ((pla bus vm').r_s ≡ set_nz vm.r_a vm'.r_s)
    unfolding pha pla
    pla-pha e same =
        let (value, pointer) = pull_pushed vm.r_a e same in
        let whole : pull bus vm' ≡ vm.r_a = omega (arith, value) in
        (whole, pointer, ap (λ (x : ℕ). set_nz x vm'.r_s) whole)

    -- PLP after PHP: the status register comes back with B and the unused bit set.
    pub plp-php :
        vm'.r_sp ≡ (php bus vm).r_sp
        → SameCells vm'.ram (php bus vm).ram (256 + vm.r_sp) 1
        → ((plp bus vm').r_s ≡ bit_or (bit_or vm.r_s 0x20) 0x10) × ((plp bus vm').r_sp ≡ vm.r_sp)
    unfolding php plp
    plp-php e same =
        let (value, pointer) = pull_pushed (pushed_status vm.r_s) e same in
        (unfold pushed_status in omega (arith, value, pushed-IsByte vm.r_s v.s_byte), pointer)

    -- RTS after JSR: execution goes on behind the three bytes of the JSR, and the stack pointer is
    -- back, if the pointer was not 0 and the code in between keeps the pointer and the two cells.
    pub rts-jsr :
        (b1 b2 : ℕ)
        → 1 ≤ vm.r_sp
        → vm'.r_sp ≡ (jsr bus b1 b2 vm).r_sp
        → SameCells vm'.ram (jsr bus b1 b2 vm).ram (255 + vm.r_sp) 2
        → ((rts bus vm').r_pc ≡ (vm.r_pc + 3) % 65536) × ((rts bus vm').r_sp ≡ vm.r_sp)
    unfolding jsr rts
    rts-jsr b1 b2 pos e same = (rw at_stack (rw word (omega arith)), omega arith)
      where
        ret : ℕ
        ret = u16 (vm.r_pc + 2)

        pushed : List ℕ
        pushed = u8 ret ∷ (ret / 256) ∷ []

        below : stack_below 1 vm.r_sp ≡ 255 + vm.r_sp
        below = omega (arith, stack_below_lem 1 vm.r_sp pos v.sp_byte)

        at_stack : stack_above vm'.r_sp ≡ 255 + vm.r_sp
        at_stack = omega (arith, stack_above_lem vm'.r_sp (omega arith))

        there : SameCells vm'.ram (bus.ram_write vm.ram (255 + vm.r_sp) pushed) (255 + vm.r_sp) 2
        there i k =
            same i k
            ∙ ap (λ (a : ℕ). bus.peek (bus.ram_write vm.ram a pushed) (255 + vm.r_sp + i)) below

        word : read_word bus vm'.ram (255 + vm.r_sp) ≡ ret
        word =
            read_word_written vm.ram vm'.ram (255 + vm.r_sp) ret (omega arith) (omega arith) there

    -- RTI after BRK: execution goes on two bytes behind the BRK, the stack pointer is back, and the
    -- status register is the one before with B and the unused bit set, if the pointer was at least 2
    -- and the code in between keeps the pointer and the three cells.
    pub rti-brk :
        2 ≤ vm.r_sp
        → vm'.r_sp ≡ (brk bus vm).r_sp
        → SameCells vm'.ram (brk bus vm).ram (254 + vm.r_sp) 3
        → ((rti bus vm').r_pc ≡ (vm.r_pc + 2) % 65536)
          × ((rti bus vm').r_sp ≡ vm.r_sp)
          × ((rti bus vm').r_s ≡ bit_or (bit_or vm.r_s 0x20) 0x10)
    unfolding brk rti
    rti-brk pos e same = (
      rw (at_stack, pulled 1 (omega arith), pulled 2 (omega arith))
          (addr16_lem (u8 (u8 ret)) (u8 (u8 (ret / 256))) (omega arith) ∙ omega arith),
      omega arith,
      rw at_stack (pulled 0 (omega arith) ∙ whole),
    )
      where
        ret : ℕ
        ret = u16 (vm.r_pc + 2)

        pushed : List ℕ
        pushed = pushed_status vm.r_s ∷ u8 ret ∷ u8 (ret / 256) ∷ []

        below : stack_below 2 vm.r_sp ≡ 254 + vm.r_sp
        below = omega (arith, stack_below_lem 2 vm.r_sp pos v.sp_byte)

        at_stack : stack_above vm'.r_sp ≡ 254 + vm.r_sp
        at_stack = omega (arith, stack_above_lem vm'.r_sp (omega arith))

        there : SameCells vm'.ram (bus.ram_write vm.ram (254 + vm.r_sp) pushed) (254 + vm.r_sp) 3
        there i k =
            same i k
            ∙ ap (λ (a : ℕ). bus.peek (bus.ram_write vm.ram a pushed) (254 + vm.r_sp + i)) below

        pulled :
            (i : ℕ) → i < 3 → byte (bus.ram_read vm'.ram (254 + vm.r_sp) 3) i ≡ u8 (byte pushed i)
        pulled i k = byte_written vm.ram vm'.ram (254 + vm.r_sp) pushed i (omega arith) k there

        whole : u8 (pushed_status vm.r_s) ≡ bit_or (bit_or vm.r_s 0x20) 0x10
        whole = unfold pushed_status in omega (arith, pushed-IsByte vm.r_s v.s_byte)
