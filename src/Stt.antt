-- ===== src/Stt.antt =====
-- Speech to text: the chunks of the audio and what is made of their texts (src/chunker.py,
-- src/repetition.py, src/scoring.py).
pub mod Chunker
pub mod Scoring
pub mod Repetition
