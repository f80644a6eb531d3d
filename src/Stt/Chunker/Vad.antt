-- ===== src/Stt/Chunker/Vad.antt =====
-- The chunks that follow the speech regions: `vad_segment_chunks` and `subdivide_chunk` of
-- src/chunker.py.
use lb_note.Base.{
  ℕ, zero, suc, ◌+◌, ◌-◌, Option, none, some, Bool, true, false, List, [], ◌∷◌, ◌++◌, map, ltb, leb,
  if◌then◌else◌, min,
}
use lb_note.Stt.Chunker.Fixed.{AudioChunk, cons}

abbrev pub Region : Type 0
Region = ℕ × ℕ

-- A span of the audio: start, end, and whether it overlaps the one before.
abbrev pub Span : Type 0
Span = ℕ × ℕ × Bool

-- The pad around a region, clamped to the audio.
abbrev pub pad : ℕ → ℕ → Region → Region
pad dur p (s, e) = (s - p, min dur (e + p))

-- The `while t < e` loop that splits a region that is too long, on fuel.
unfoldable pub hard_split : ℕ → ℕ → ℕ → ℕ → ℕ → Bool → Option (List Span)
hard_split zero target overlap t e seam = none
hard_split (suc fuel) target overlap t e seam =
    let stop = min (t + target) e in
    let rest = hard_split fuel target overlap (stop - overlap) e true in
    if ltb t e
    then (if leb e stop then some ((t, stop, seam) ∷ []) else cons (t, stop, seam) rest)
    else some []

-- `flush`: the open chunk becomes a span.
abbrev pub flush : Option Region → List Span
flush none = []
flush (some (s, e)) = (s, e, false) ∷ []

-- Spans in front of what a loop collects.
abbrev pub after : List Span → Option (List Span) → Option (List Span)
after xs none = none
after xs (some ys) = some (xs ++ ys)

abbrev pub join : Option (List Span) → Option (List Span) → Option (List Span)
join none ys = none
join (some xs) ys = after xs ys

-- Whether the region fits the open chunk.
abbrev pub fits : ℕ → Option Region → ℕ → Bool
fits target none e = false
fits target (some (cs, ce)) e = leb e (cs + target)

-- The open chunk, extended to the end of a region that fits.
abbrev pub extend : Option Region → ℕ → Option Region
extend none e = none
extend (some (cs, ce)) e = some (cs, e)

-- The loop over the padded regions, with the open chunk.
unfoldable pub group : ℕ → ℕ → ℕ → Option Region → List Region → Option (List Span)
unfolding hard_split
group fuel target overlap cur [] = some (flush cur)
group fuel target overlap cur ((s, e) ∷ rs) =
    let split =
      join (hard_split fuel target overlap s e false) (group fuel target overlap none rs) in
    let grown = group fuel target overlap (extend cur e) rs in
    let opened = after (flush cur) (group fuel target overlap (some (s, e)) rs) in
    if ltb (s + target) e
    then after (flush cur) split
    else (if fits target cur e then grown else opened)

abbrev pub number : ℕ → List Span → List AudioChunk
number i [] = []
number i ((s, e, seam) ∷ xs) =
    record { index = i; start = s; stop = e; is_overlap_seam = seam } ∷ number (i + 1) xs

abbrev pub numbered : Option (List Span) → Option (List AudioChunk)
numbered none = none
numbered (some xs) = some (number 0 xs)

-- `vad_segment_chunks` on an array of `dur` samples.
unfoldable pub vad_segment_chunks : ℕ → ℕ → List Region → ℕ → ℕ → ℕ → Option (List AudioChunk)
unfolding group
vad_segment_chunks fuel dur regions target pad_n overlap =
    numbered (group fuel target overlap none (map (pad dur pad_n) regions))
