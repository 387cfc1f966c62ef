-- ===== src/Dasm.antt =====
-- The assembler and the disassembler of dasm/dasm.c.
pub mod Table
pub mod Find
pub mod Text
pub mod Das
pub mod As
pub mod Hex
pub mod Parse
pub mod Agree
pub mod Words
pub mod Roundtrip
pub mod Printed
pub mod Tool
pub mod Branch
pub mod Dot
mod Examples
