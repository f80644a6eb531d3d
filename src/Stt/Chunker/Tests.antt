-- ===== src/Stt/Chunker/Tests.antt =====
-- Runs of src/chunker.py on short audio, and its theorems at concrete inputs.
use lb_note.Base.{ℕ, ◌<◌, ◌≡◌, refl, some, true, false, List, [], ◌∷◌, arith}
use lb_note.Base.{Bool, none, drop, take, length, ◌++◌, ◌-◌, ◌≤◌}
use lb_note.Base.Chars.{Chars, strip}
use lb_note.Stt.Chunker.Merge.{Segment, dedup, merge_vad_segments, strip_overlap, stripped_words}
use lb_note.Stt.Chunker.Seams.{Repeats, dedup_joins}
use lb_note.Stt.Chunker.Fixed.{AudioChunk, Floats, chunks, chunk_audio}
use lb_note.Stt.Chunker.FixedCut.{IsCut, chunk_audio-IsCut}
use lb_note.Stt.Chunker.Vad.{Region, vad_segment_chunks}
use lb_note.Stt.Chunker.HardSplit.{Speech}
use lb_note.Stt.Chunker.VadCover.{Bounded, NumberedFrom, Heard, vad_segment_chunks_cover}

-- One sample for each unit.
abbrev exact : Floats
exact = record {
  minus = λ a b. a - b;
  samples = λ a. a;
  minus_le = λ a b h. omega arith;
  samples_mono = λ a b h. h;
}

-- 25 samples in chunks of 10 with an overlap of 4.
twenty_five :
    chunk_audio exact 26 25 10 4
    ≡ chunks (
        some (
          record { index = 0; start = 0; stop = 10; is_overlap_seam = false }
          ∷ record { index = 1; start = 6; stop = 16; is_overlap_seam = false }
          ∷ record { index = 2; start = 12; stop = 22; is_overlap_seam = false }
          ∷ record { index = 3; start = 18; stop = 25; is_overlap_seam = false }
          ∷ []))
unfolding chunk_audio
twenty_five = refl

chunk_audio-IsCut_example :
    (cs : List AudioChunk) × (chunk_audio exact 26 25 10 4 ≡ chunks (some cs))
    × IsCut 25 10 4 0 0 cs
chunk_audio-IsCut_example = (chunk_audio-IsCut exact 25 10 4 (omega arith)).0 (omega arith)

abbrev speech : List Region
speech = (2, 5) ∷ (7, 9) ∷ (20, 45) ∷ (50, 52) ∷ []

-- Two short regions in one chunk, a long one in three with seams, and a last one.
speech_runs :
    vad_segment_chunks 61 60 speech 10 1 2
    ≡ some (
        record { index = 0; start = 1; stop = 10; is_overlap_seam = false }
        ∷ record { index = 1; start = 19; stop = 29; is_overlap_seam = false }
        ∷ record { index = 2; start = 27; stop = 37; is_overlap_seam = true }
        ∷ record { index = 3; start = 35; stop = 45; is_overlap_seam = true }
        ∷ record { index = 4; start = 43; stop = 46; is_overlap_seam = true }
        ∷ record { index = 5; start = 49; stop = 53; is_overlap_seam = false }
        ∷ [])
unfolding vad_segment_chunks
speech_runs = refl

vad_segment_chunks_cover_example :
    (cs : List AudioChunk) × (vad_segment_chunks 61 60 speech 10 1 2 ≡ some cs)
    × Bounded 10 cs
    × NumberedFrom 0 cs
    × ((x : ℕ) → x < 60 → Speech x speech → Heard x cs)
vad_segment_chunks_cover_example =
    vad_segment_chunks_cover 60 10 1 2 speech (omega arith) (omega arith)

abbrev before : List Chars
before = (97 ∷ []) ∷ (98 ∷ []) ∷ (99 ∷ []) ∷ []

abbrev after : List Chars
after = (98 ∷ []) ∷ (99 ∷ []) ∷ (100 ∷ []) ∷ []

-- The two words that are repeated go once.
seam_run : dedup before after ≡ (100 ∷ []) ∷ []
unfolding dedup
seam_run = refl

-- "a b." and "b, c": the words of a seam, and a text that is not at one.
abbrev segment : Chars → Bool → Segment
segment text seam = record {
  start = 0;
  end = 1;
  text = text;
  confidence = none;
  speaker = none;
  is_overlap_seam = seam;
}

merged_run :
    merge_vad_segments (
      segment (97 ∷ 32 ∷ 98 ∷ []) false
      ∷ segment (98 ∷ 32 ∷ 99 ∷ []) true
      ∷ segment (99 ∷ 32 ∷ 99 ∷ []) false
      ∷ [])
    ≡ segment (97 ∷ 32 ∷ 98 ∷ []) false
      ∷ segment (99 ∷ []) true
      ∷ segment (99 ∷ 32 ∷ 99 ∷ []) false
      ∷ []
unfolding merge_vad_segments dedup
merged_run = refl

-- "a b c d" and "b. c d, e": three words are found in spite of the punctuation.
stripped_run :
    strip_overlap 50
      (97 ∷ 32 ∷ 98 ∷ 32 ∷ 99 ∷ 32 ∷ 100 ∷ [])
      (98 ∷ 46 ∷ 32 ∷ 99 ∷ 32 ∷ 100 ∷ 44 ∷ 32 ∷ 101 ∷ [])
    ≡ 101 ∷ []
unfolding strip_overlap stripped_words strip
stripped_run = refl

dedup_joins_example :
    (k : ℕ) × (dedup before after ≡ drop k after)
    × (k ≤ 12)
    × (before ++ dedup before after ≡ take (length before - k) before ++ after)
    × ((j : ℕ) → j ≤ 12 → j ≤ length before → j ≤ length after → Repeats j before after → j ≤ k)
dedup_joins_example = dedup_joins before after
