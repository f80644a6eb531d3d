-- ===== src/Stt/Chunker/VadCover.antt =====
-- The chunks of `vad_segment_chunks` (src/chunker.py) are short, numbered, and lose no speech.
use lb_note.Base.{
  ℕ, ◌+◌, ◌-◌, ◌≤◌, ◌<◌, ◌≡◌, refl, ◌⊎◌, inl, inr, none, some, List, [], ◌∷◌, arith, All, map, min,
}
use lb_note.Stt.Chunker.Fixed.{AudioChunk, Ends-some}
use lb_note.Stt.Chunker.Vad.{Region, Span, pad, group, number, vad_segment_chunks}
use lb_note.Stt.Chunker.HardSplit.{IsShort, Covers, Speech, Good}
use lb_note.Stt.Chunker.VadGroup.{Rising, EndBefore, Open, group-Good}

-- The chunks are numbered from a number on.
abbrev pub NumberedFrom : ℕ → List AudioChunk → Type 0
NumberedFrom i [] = Unit
NumberedFrom i (c ∷ cs) = (c.index ≡ i) × NumberedFrom (i + 1) cs

-- An instant lies in one of the chunks.
abbrev pub Heard : ℕ → List AudioChunk → Type 0
Heard x [] = ⊥
Heard x (c ∷ cs) = ((c.start ≤ x) × (x < c.stop)) ⊎ Heard x cs

-- No chunk is longer than the target.
abbrev pub Bounded : ℕ → List AudioChunk → Type 0
Bounded target = All (λ (c : AudioChunk). c.stop ≤ c.start + target)

number-NumberedFrom : (i : ℕ) (xs : List Span) → NumberedFrom i (number i xs)
number-NumberedFrom i [] = tt
number-NumberedFrom i ((s, e, seam) ∷ xs) = (refl, number-NumberedFrom (i + 1) xs)

number-Bounded :
    (target i : ℕ) (xs : List Span) → All (IsShort target) xs → Bounded target (number i xs)
number-Bounded target i [] h = tt
number-Bounded target i ((s, e, seam) ∷ xs) h = (h.0, number-Bounded target (i + 1) xs h.1)

number-Heard : (x i : ℕ) (xs : List Span) → Covers x xs → Heard x (number i xs)
number-Heard x i [] h = h
number-Heard x i ((s, e, seam) ∷ xs) (inl h) = inl h
number-Heard x i ((s, e, seam) ∷ xs) (inr h) = inr (number-Heard x (i + 1) xs h)

pad-Rising :
    (dur p lo hi : ℕ) (rs : List Region)
    → Rising lo hi rs
    → Rising (lo - p) (min dur (hi + p)) (map (pad dur p) rs)
pad-Rising dur p lo hi [] h = tt
pad-Rising dur p lo hi ((s, e) ∷ rs) h = (omega arith, omega arith, pad-Rising dur p s e rs h.2)

pad-Rising_zero : (dur p : ℕ) (rs : List Region) → Rising 0 0 rs → Rising 0 0 (map (pad dur p) rs)
pad-Rising_zero dur p [] h = tt
pad-Rising_zero dur p ((s, e) ∷ rs) h = (omega arith, omega arith, pad-Rising dur p s e rs h.2)

pad-EndBefore : (dur p : ℕ) (rs : List Region) → EndBefore (dur + 1) (map (pad dur p) rs)
pad-EndBefore dur p [] = tt
pad-EndBefore dur p ((s, e) ∷ rs) = (omega arith, pad-EndBefore dur p rs)

pad-Speech :
    (dur p x : ℕ) (rs : List Region) → x < dur → Speech x rs → Speech x (map (pad dur p) rs)
pad-Speech dur p x [] l h = h
pad-Speech dur p x ((s, e) ∷ rs) l (inl h) = inl (omega arith)
pad-Speech dur p x ((s, e) ∷ rs) l (inr h) = inr (pad-Speech dur p x rs l h)

-- With an overlap below the target and regions in order (neither their starts nor
-- their ends go back), the loops end within as many rounds as
-- there are samples. No chunk is longer than the target, the chunks are numbered from 0, and every
-- instant of speech within the audio lies in a chunk.
pub vad_segment_chunks_cover :
    (dur target pad_n overlap : ℕ) (regions : List Region)
    → overlap < target
    → Rising 0 0 regions
    → (cs : List AudioChunk) × (vad_segment_chunks (dur + 1) dur regions target pad_n overlap
        ≡ some cs)
      × Bounded target cs
      × NumberedFrom 0 cs
      × ((x : ℕ) → x < dur → Speech x regions → Heard x cs)
unfolding vad_segment_chunks
vad_segment_chunks_cover dur target pad_n overlap regions o rising =
    let padded = map (pad dur pad_n) regions in
    let (xs, e, h) =
      Ends-some (Good target (λ x. Open x none ⊎ Speech x padded))
        (group (dur + 1) target overlap none padded)
        (group-Good (dur + 1) target overlap none padded o (omega arith)
          (pad-EndBefore dur pad_n regions) (pad-Rising_zero dur pad_n regions rising)) in
    (
      number 0 xs,
      rw e refl,
      number-Bounded target 0 xs h.0,
      number-NumberedFrom 0 xs,
      λ x l s. number-Heard x 0 xs (h.1 x (inr (pad-Speech dur pad_n x regions l s))),
    )
