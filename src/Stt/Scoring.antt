-- ===== src/Stt/Scoring.antt =====
-- `levenshtein` of src/scoring.py, on lists of tokens or characters.
pub mod Rows
pub mod Scripts
pub mod Rates
pub mod Tests
