-- ===== src/Stt/Chunker/Subdivide.antt =====
-- `subdivide_chunk` of src/chunker.py: the pieces are spans of the chunk's own samples.
use lb_note.Base.{
  ℕ, zero, suc, ◌+◌, ◌-◌, ◌/◌, Option, none, some, List, [], ◌∷◌, if◌then◌else◌, ltb, leb, min, max,
  map,
}
use lb_note.Stt.Chunker.Fixed.{AudioChunk}
use lb_note.Stt.Chunker.Vad.{Region, vad_segment_chunks}

-- The part of a region in the chunk, in the chunk's own time.
abbrev pub local_region : AudioChunk → Region → Region
local_region c (s, e) = (max s c.start - c.start, min e c.stop - c.start)

-- Regions that hardly overlap the chunk are left out; `gap` is 0.05 seconds.
abbrev pub local_regions : ℕ → AudioChunk → List Region → List Region
local_regions gap c [] = []
local_regions gap c (r ∷ rs) =
    let (a, b) = local_region c r in
    let rest = local_regions gap c rs in
    if ltb (a + gap) b then (a, min (c.stop - c.start) b) ∷ rest else rest

abbrev pub ceil_div : ℕ → ℕ → ℕ
ceil_div a b = (a + b - 1) / b

abbrev pub add_span : Region → Option (List Region) → Option (List Region)
add_span r none = none
add_span r (some rs) = some (r ∷ rs)

-- `range(0, len(samples), step)`, on fuel.
abbrev pub pieces : ℕ → ℕ → ℕ → ℕ → Option (List Region)
pieces zero total step i = none
pieces (suc fuel) total step i =
    let rest = pieces fuel total step (i + step) in
    if ltb i total then add_span (i, min (i + step) total) rest else some []

abbrev pub span_of : AudioChunk → Region
span_of c = (c.start, c.stop)

abbrev pub even_pieces : ℕ → ℕ → Option (List Region)
even_pieces total target =
    pieces (total + 1) total (ceil_div total (max 2 (ceil_div total target))) 0

-- The speech chunks count only where there are two or more.
abbrev pub pieces_or : Option (List Region) → Option (List AudioChunk) → Option (List Region)
pieces_or even none = none
pieces_or even (some []) = even
pieces_or even (some (c ∷ [])) = even
pieces_or even (some (c ∷ d ∷ cs)) = some (map span_of (c ∷ d ∷ cs))

abbrev pub subdivide_in : ℕ → ℕ → ℕ → List Region → Option (List Region)
subdivide_in fuel total target [] = even_pieces total target
subdivide_in fuel total target (r ∷ rs) =
    pieces_or (even_pieces total target) (vad_segment_chunks fuel total (r ∷ rs) target 0 0)

unfoldable pub subdivide_chunk : ℕ → ℕ → AudioChunk → List Region → ℕ → Option (List Region)
subdivide_chunk fuel gap c regions target =
    let total = c.stop - c.start in
    if leb total target
    then some ((0, total) ∷ [])
    else subdivide_in fuel total target (local_regions gap c regions)
