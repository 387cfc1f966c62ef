-- ===== src/Vm/State.antt =====
-- The registers and the memory, and `vm_init`.
use dan.Prelude.{ℕ, ◌<◌}

pub record Vm (M : Type 0) : Type 0 where
  pub r_a : ℕ  -- uint8_t
  pub r_x : ℕ  -- uint8_t
  pub r_y : ℕ  -- uint8_t
  pub r_sp : ℕ  -- uint8_t
  pub r_s : ℕ  -- uint8_t
  pub r_pc : ℕ  -- uint16_t
  pub ram : M

abbrev pub prog_start : ℕ
prog_start = 0x1a00

module _ {M : Type 0} where
  -- `vm_init` leaves the memory as it is.
  unfoldable pub vm_init : Vm M → Vm M
  vm_init vm = record vm { r_a = 0; r_x = 0; r_y = 0; r_s = 0; r_sp = 0xff; r_pc = prog_start }

  -- The registers are within the widths that the source declares.
  pub record IsValid (vm : Vm M) : Type 0 where
    pub a_byte : vm.r_a < 256
    pub x_byte : vm.r_x < 256
    pub y_byte : vm.r_y < 256
    pub sp_byte : vm.r_sp < 256
    pub s_byte : vm.r_s < 256
    pub pc_word : vm.r_pc < 65536
