-- ===== src/Postprocess.antt =====
-- The post-processing of a transcript (src/postprocess).
pub mod Tokens
pub mod Validate
pub mod Repair
mod Content
pub mod Language
pub mod Partition
pub mod Tests
