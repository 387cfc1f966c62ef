-- ===== src/Storage.antt =====
-- The audio storage of storage/storage.c: frames of bytes, the half pulses that carry them, and the
-- byte buffer between the interrupt routines and the program.
pub mod Decoder
pub mod Encoder
pub mod Listener
pub mod Output
mod Examples
