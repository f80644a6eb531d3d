-- ===== src/Stt/Chunker.antt =====
-- src/chunker.py. A time is a whole number of samples: `sec * sr` is taken to be whole, so that the
-- rounding of the source changes nothing. Times are not negative, and `-` stops at 0.
pub mod Fixed
pub mod FixedCut
pub mod Vad
pub mod HardSplit
pub mod VadGroup
pub mod VadCover
pub mod Subdivide
pub mod Merge
pub mod Seams
mod Tests
