-- ===== src/Wave.antt =====
-- wavecuepoint/wavecuepoint.c: a wave file with cue points for the locations of a marker file.
pub mod Endian
pub mod Markers
pub mod Chunks
pub mod Output
pub mod Program
pub mod Ends
mod Tests
use csnip.Base.{ℕ, List, Bool}
