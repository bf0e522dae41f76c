-- ===== src/Rb.antt =====
-- rb/rb.h and the headers that build on it: a byte ring buffer with one reader and one writer.
pub mod State
pub mod Space
pub mod Copy
pub mod Advance
pub mod Region
pub mod Search
pub mod Queue
pub mod Client
pub mod Threads
pub mod Audio
pub mod Float
pub mod Midi
pub mod Create
pub mod Shared
pub mod Exclusive
pub mod Samples
mod Tests
