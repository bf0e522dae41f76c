-- ===== src/Machine.antt =====
-- What the C code takes from its machine: 64-bit words, the int, byte arrays and arrays of words.
pub mod Word
pub mod Memory
pub mod Array
pub mod Cstring
pub mod Int
pub mod Stdio
pub mod Run
