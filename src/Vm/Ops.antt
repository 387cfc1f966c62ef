-- ===== src/Vm/Ops.antt =====
-- The instructions of `vm_exec`, one function for each group of case labels with its shared label.
-- Each leaves the program counter to `advance`, but those that say otherwise.
pub mod Load
pub mod Arith
pub mod Shift
pub mod Branch
pub mod Stack
