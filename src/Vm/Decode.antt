-- ===== src/Vm/Decode.antt =====
-- The cases of the switch of `vm_exec`: for each opcode the code that it enters and the addressing
-- that the case label computes first.
use dan.Prelude.{ℕ, ◌==◌, if◌then◌else◌, List, [], ◌∷◌, Option, none, some}

-- The instruction of a group of case labels, with the group's shared label.
pub data Instr : Type 0 where
  sys dex dey tax bpl bcc cpx eor tsx dec sta lda beq rol : Instr
  sty jmp bmi rti tay txa rts sed lsr jsr ldy sec bit ldx : Instr
  txs sei asl bvs cpy cli cld clc bcs adc clv stx ror bne : Instr
  and inx iny plp pha cmp tya bvc sbc brk pla php nop inc : Instr
  ora : Instr

-- How a case label obtains its operand.
pub data Mode : Type 0 where
  implied accumulator immediate relative : Mode
  zero_page zero_page_x zero_page_y : Mode
  absolute absolute_x absolute_y : Mode
  index_ind ind_index ind_abs : Mode

pub record Case : Type 0 where
  pub opcode : ℕ
  pub instr : Instr
  pub mode : Mode

abbrev on : ℕ → Instr → Mode → Case
on op i m = record { opcode = op; instr = i; mode = m }

-- The case labels in the order of the source.
unfoldable pub cases : List Case
cases =
    on 0x02 sys implied
    ∷ on 0xca dex implied
    ∷ on 0x88 dey implied
    ∷ on 0xaa tax implied
    ∷ on 0x10 bpl relative
    ∷ on 0x90 bcc relative
    ∷ on 0xe0 cpx immediate
    ∷ on 0xe4 cpx zero_page
    ∷ on 0xec cpx absolute
    ∷ on 0x41 eor index_ind
    ∷ on 0x45 eor zero_page
    ∷ on 0x49 eor immediate
    ∷ on 0x4d eor absolute
    ∷ on 0x51 eor ind_index
    ∷ on 0x55 eor zero_page_x
    ∷ on 0x59 eor absolute_y
    ∷ on 0x5d eor absolute_x
    ∷ on 0xba tsx implied
    ∷ on 0xc6 dec zero_page
    ∷ on 0xce dec absolute
    ∷ on 0xd6 dec zero_page_x
    ∷ on 0xde dec absolute_x
    ∷ on 0x81 sta index_ind
    ∷ on 0x85 sta zero_page
    ∷ on 0x8d sta absolute
    ∷ on 0x91 sta ind_index
    ∷ on 0x95 sta zero_page_x
    ∷ on 0x99 sta absolute_y
    ∷ on 0x9d sta absolute_x
    ∷ on 0xa1 lda index_ind
    ∷ on 0xa5 lda zero_page
    ∷ on 0xa9 lda immediate
    ∷ on 0xad lda absolute
    ∷ on 0xb1 lda ind_index
    ∷ on 0xb5 lda zero_page_x
    ∷ on 0xb9 lda absolute_y
    ∷ on 0xbd lda absolute_x
    ∷ on 0xf0 beq relative
    ∷ on 0x26 rol zero_page
    ∷ on 0x2a rol accumulator
    ∷ on 0x2e rol absolute
    ∷ on 0x36 rol zero_page_x
    ∷ on 0x3e rol absolute_x
    ∷ on 0x84 sty zero_page
    ∷ on 0x8c sty absolute
    ∷ on 0x94 sty zero_page_x
    ∷ on 0x4c jmp absolute
    ∷ on 0x6c jmp ind_abs
    ∷ on 0x30 bmi relative
    ∷ on 0x40 rti implied
    ∷ on 0xa8 tay implied
    ∷ on 0x8a txa implied
    ∷ on 0x60 rts implied
    ∷ on 0xf8 sed implied
    ∷ on 0x46 lsr zero_page
    ∷ on 0x4a lsr accumulator
    ∷ on 0x4e lsr absolute
    ∷ on 0x56 lsr zero_page_x
    ∷ on 0x5e lsr absolute_x
    ∷ on 0x20 jsr absolute
    ∷ on 0xa0 ldy immediate
    ∷ on 0xa4 ldy zero_page
    ∷ on 0xac ldy absolute
    ∷ on 0xb4 ldy zero_page_x
    ∷ on 0xbc ldy absolute_x
    ∷ on 0x38 sec implied
    ∷ on 0x24 bit zero_page
    ∷ on 0x2c bit absolute
    ∷ on 0xa2 ldx immediate
    ∷ on 0xa6 ldx zero_page
    ∷ on 0xae ldx absolute
    ∷ on 0xb6 ldx zero_page_y
    ∷ on 0xbe ldx absolute_y
    ∷ on 0x9a txs implied
    ∷ on 0x78 sei implied
    ∷ on 0x06 asl zero_page
    ∷ on 0x0a asl accumulator
    ∷ on 0x0e asl absolute
    ∷ on 0x16 asl zero_page_x
    ∷ on 0x1e asl absolute_x
    ∷ on 0x70 bvs relative
    ∷ on 0xc0 cpy immediate
    ∷ on 0xc4 cpy zero_page
    ∷ on 0xcc cpy absolute
    ∷ on 0x58 cli implied
    ∷ on 0xd8 cld implied
    ∷ on 0x18 clc implied
    ∷ on 0xb0 bcs relative
    ∷ on 0x61 adc index_ind
    ∷ on 0x65 adc zero_page
    ∷ on 0x69 adc immediate
    ∷ on 0x6d adc absolute
    ∷ on 0x71 adc ind_index
    ∷ on 0x75 adc zero_page_x
    ∷ on 0x79 adc absolute_y
    ∷ on 0x7d adc absolute_x
    ∷ on 0xb8 clv implied
    ∷ on 0x86 stx zero_page
    ∷ on 0x8e stx absolute
    ∷ on 0x96 stx zero_page_y
    ∷ on 0x66 ror zero_page
    ∷ on 0x6a ror accumulator
    ∷ on 0x6e ror absolute
    ∷ on 0x76 ror zero_page_x
    ∷ on 0x7e ror absolute_x
    ∷ on 0xd0 bne relative
    ∷ on 0x21 and index_ind
    ∷ on 0x25 and zero_page
    ∷ on 0x29 and immediate
    ∷ on 0x2d and absolute
    ∷ on 0x31 and ind_index
    ∷ on 0x35 and zero_page_x
    ∷ on 0x39 and absolute_y
    ∷ on 0x3d and absolute_x
    ∷ on 0xe8 inx implied
    ∷ on 0xc8 iny implied
    ∷ on 0x28 plp implied
    ∷ on 0x48 pha implied
    ∷ on 0xc1 cmp index_ind
    ∷ on 0xc5 cmp zero_page
    ∷ on 0xc9 cmp immediate
    ∷ on 0xcd cmp absolute
    ∷ on 0xd1 cmp ind_index
    ∷ on 0xd5 cmp zero_page_x
    ∷ on 0xd9 cmp absolute_y
    ∷ on 0xdd cmp absolute_x
    ∷ on 0x98 tya implied
    ∷ on 0x50 bvc relative
    ∷ on 0xe1 sbc index_ind
    ∷ on 0xe5 sbc zero_page
    ∷ on 0xe9 sbc immediate
    ∷ on 0xed sbc absolute
    ∷ on 0xf1 sbc ind_index
    ∷ on 0xf5 sbc zero_page_x
    ∷ on 0xf9 sbc absolute_y
    ∷ on 0xfd sbc absolute_x
    ∷ on 0x00 brk implied
    ∷ on 0x68 pla implied
    ∷ on 0x08 php implied
    ∷ on 0xea nop implied
    ∷ on 0xe6 inc zero_page
    ∷ on 0xee inc absolute
    ∷ on 0xf6 inc zero_page_x
    ∷ on 0xfe inc absolute_x
    ∷ on 0x01 ora index_ind
    ∷ on 0x05 ora zero_page
    ∷ on 0x09 ora immediate
    ∷ on 0x0d ora absolute
    ∷ on 0x11 ora ind_index
    ∷ on 0x15 ora zero_page_x
    ∷ on 0x19 ora absolute_y
    ∷ on 0x1d ora absolute_x
    ∷ []

unfoldable pub find_case : List Case → ℕ → Option Case
find_case [] op = none
find_case (c ∷ cs) op = if c.opcode == op then some c else find_case cs op

-- `switch(op)`: `none` is the default label.
unfoldable pub switch : ℕ → Option Case
unfolding cases find_case
switch op = find_case cases op

-- What `pt` has advanced by when the case ends: the opcode and the operand bytes that it took.
unfoldable pub size : Mode → ℕ
size implied = 1
size accumulator = 1
size absolute = 3
size absolute_x = 3
size absolute_y = 3
size ind_abs = 3
size _ = 2
