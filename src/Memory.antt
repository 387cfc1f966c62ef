-- ===== src/Memory.antt =====
-- The memory of the computer: memory/mem.c over the serial RAM, and the memory of the machine that
-- init/syscall.c puts together from local bytes and the serial RAM.
pub mod Chip
pub mod Sram
pub mod Paged
mod Examples
