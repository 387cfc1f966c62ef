-- ===== src/Vm/Operand.antt =====
-- The addressing part of the case labels of `vm_exec`. `b1` and `b2` are the operand bytes of the
-- instruction cache, `_op_cache[1]` and `_op_cache[2]`; the two `*pt++` of an `addr16` are taken
-- from left to right.
use dan.Prelude.{ℕ, ◌+◌, Bool, true, false, ltb, if◌then◌else◌, bit_and, [], ◌∷◌, byte, u16}
use dan.Vm.Bus.{Bus}
use dan.Vm.Flags.{addr16}
use dan.Vm.State.{Vm}
use dan.Vm.Decode.{
  Mode, accumulator, immediate, zero_page, zero_page_x, zero_page_y, absolute, absolute_x,
  absolute_y, index_ind, ind_index, ind_abs,
}

module _ {M : Type 0} (bus : Bus M) where
  -- `vm_ram_read(addr, &r, 1)`
  unfoldable pub read_byte : M → ℕ → ℕ
  read_byte m a = byte (bus.ram_read m a 1) 0

  -- `vm_ram_read(addr, pt, 2); addr16(pt[0], pt[1])`
  unfoldable pub read_word : M → ℕ → ℕ
  unfolding addr16
  read_word m a = let pt = bus.ram_read m a 2 in addr16 (byte pt 0) (byte pt 1)

  -- `vm_ram_write(addr, &r, 1)`
  unfoldable pub write_byte : ℕ → ℕ → Vm M → Vm M
  write_byte a v vm = record vm { ram = bus.ram_write vm.ram a (v ∷ []) }

  -- The variable `addr` as the case label leaves it. The modes in the last clause compute no address.
  unfoldable pub address : Mode → ℕ → ℕ → Vm M → ℕ
  unfolding read_word addr16
  address zero_page b1 b2 vm = b1
  address zero_page_x b1 b2 vm = bit_and (b1 + vm.r_x) 0xff
  address zero_page_y b1 b2 vm = bit_and (b1 + vm.r_y) 0xff
  address absolute b1 b2 vm = addr16 b1 b2
  address absolute_x b1 b2 vm = u16 (addr16 b1 b2 + vm.r_x)
  address absolute_y b1 b2 vm = u16 (addr16 b1 b2 + vm.r_y)
  address index_ind b1 b2 vm = read_word vm.ram (bit_and (b1 + vm.r_x) 0xff)
  address ind_index b1 b2 vm = u16 (read_word vm.ram b1 + vm.r_y)
  address ind_abs b1 b2 vm = read_word vm.ram (addr16 b1 b2)
  address _ b1 b2 vm = 0

  -- The byte that the shared label works on: `*pt++` for an immediate operand, else the byte read.
  unfoldable pub operand : Mode → ℕ → ℕ → Vm M → ℕ
  unfolding read_byte address
  operand immediate b1 b2 vm = b1
  operand accumulator b1 b2 vm = vm.r_a
  operand m b1 b2 vm = read_byte vm.ram (address m b1 b2 vm)

  -- Where a read-modify-write instruction leaves its result.
  unfoldable pub write_back : Mode → ℕ → ℕ → ℕ → Vm M → Vm M
  unfolding write_byte address
  write_back accumulator b1 b2 v vm = record vm { r_a = v }
  write_back m b1 b2 v vm = write_byte (address m b1 b2 vm) v vm

module _ {M : Type 0} where
  -- `r_pc += (pt - _op_cache)` at the end of `vm_exec`.
  unfoldable pub advance : ℕ → Vm M → Vm M
  advance n vm = record vm { r_pc = u16 (vm.r_pc + n) }

  -- A branch: `r_pc += (int8_t)*pt++` and two bytes taken, or `r_pc++` and one.
  unfoldable pub branch : Bool → ℕ → Vm M → Vm M
  unfolding advance
  branch true b1 vm =
      advance 2 (record vm { r_pc = u16 (vm.r_pc + (if ltb b1 128 then b1 else b1 + 65280)) })
  branch false b1 vm = advance 1 (record vm { r_pc = u16 (vm.r_pc + 1) })
