-- ===== src/Vm.antt =====
-- The 6502 virtual machine of vm/vm.c, with include/vm.h.
pub mod Bus
pub mod Flags
pub mod State
pub mod Decode
pub mod Alu
pub mod Operand
pub mod Ops
pub mod Exec
pub mod FlatRam
mod Examples
