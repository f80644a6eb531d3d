-- ===== src/Web/Contract.antt =====
-- The contract of the web (src/postprocess/web_contract.py).
pub mod Transcript
pub mod Edits
pub mod Ids
mod Tests
