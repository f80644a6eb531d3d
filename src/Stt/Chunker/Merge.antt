-- ===== src/Stt/Chunker/Merge.antt =====
-- The joining of the chunks' texts (`merge_vad_segments`, `merge_segments` of src/chunker.py).
use lb_note.Base.{
  ℕ, zero, suc, ◌-◌, Option, Bool, true, false, not, ◌&&◌, ◌||◌, List, [], ◌∷◌, ◌++◌, String,
  if◌then◌else◌, ◌==◌, nat_Eq, list_Eq, ltb, min, map, length, take, drop, select,
}
use lb_note.Base.Chars.{Chars, is_space, is_empty, strip}

-- The segment of a chunk, with `meta["is_overlap_seam"]`.
pub record Segment : Type 0 where
  pub start : ℕ
  pub end : ℕ
  pub text : Chars
  pub confidence : Option (ℕ × ℕ)
  pub speaker : Option String
  pub is_overlap_seam : Bool

abbrev pub add_char : ℕ → Bool → List Chars → List Chars
add_char c true ws = (c ∷ []) ∷ ws
add_char c false [] = (c ∷ []) ∷ []
add_char c false (w ∷ ws) = (c ∷ w) ∷ ws

-- Whether a text begins between words.
abbrev pub at_gap : Chars → Bool
at_gap [] = true
at_gap (c ∷ s) = is_space c

-- `str.split()`.
abbrev pub split : Chars → List Chars
split [] = []
split (c ∷ s) = let ws = split s in if is_space c then ws else add_char c (at_gap s) ws

-- `" ".join`.
abbrev pub join : List Chars → Chars
join [] = []
join (w ∷ []) = w
join (w ∷ v ∷ ws) = w ++ 32 ∷ join (v ∷ ws)

-- The loop from the longest overlap down to one word.
abbrev pub overlap : ℕ → List Chars → List Chars → ℕ
overlap zero prev w = 0
overlap (suc k) prev w =
    let shorter = overlap k prev w in
    if drop (length prev - suc k) prev == take (suc k) w then suc k else shorter

-- `SEAM_DEDUP_MAX_WORDS`.
abbrev pub seam_dedup_max_words : ℕ
seam_dedup_max_words = 12

abbrev pub seam_overlap : List Chars → List Chars → ℕ
seam_overlap prev w = overlap (min (min seam_dedup_max_words (length prev)) (length w)) prev w

-- `w[best:]`.
unfoldable pub dedup : List Chars → List Chars → List Chars
dedup prev w = drop (seam_overlap prev w) w

abbrev pub seam_text : Segment → Segment → Chars
seam_text prev nxt =
    if nxt.is_overlap_seam && not (is_empty (split prev.text)) && not (is_empty (split nxt.text))
    then join (dedup (split prev.text) (split nxt.text))
    else nxt.text

-- Each text is joined to the one before it as that one was left.
abbrev pub merge_after : (Segment → Segment → Chars) → Segment → List Segment → List Segment
merge_after text prev [] = []
merge_after text prev (nxt ∷ rest) =
    record nxt { text = text prev nxt }
    ∷ merge_after text (record nxt { text = text prev nxt }) rest

abbrev pub merge_by : (Segment → Segment → Chars) → List Segment → List Segment
merge_by text [] = []
merge_by text (s ∷ rest) = s ∷ merge_after text s rest

unfoldable pub merge_vad_segments : List Segment → List Segment
unfolding dedup
merge_vad_segments segments = merge_by seam_text segments

-- `_PUNCT_RE`.
abbrev pub is_punct : ℕ → Bool
is_punct c =
    (c == 46)
    || (c == 44)
    || (c == 33)
    || (c == 63)
    || (c == 8230)
    || (c == 34)
    || (c == 39)
    || (c == 8216)
    || (c == 8217)
    || (c == 8220)
    || (c == 8221)

-- `_norm_token`.
abbrev pub norm_token : Chars → Chars
norm_token t = strip (select (λ c. not (is_punct c)) t)

abbrev pub all_filled : List Chars → Bool
all_filled [] = true
all_filled (t ∷ ts) = not (is_empty t) && all_filled ts

-- Whether the window has the target at one of its places, `len(window) - k + 1` of them.
abbrev pub in_window : ℕ → List Chars → List Chars → Bool
in_window k target [] = take k [] == target
in_window k target (t ∷ ts) = (take k (t ∷ ts) == target) || in_window k target ts

-- The loop from the longest prefix down to three words; 0 is no prefix.
abbrev pub found_prefix : ℕ → List Chars → List Chars → ℕ
found_prefix zero window next = 0
found_prefix (suc k) window next =
    let shorter = found_prefix k window next in
    if ltb k 2
    then 0
    else (if all_filled (take (suc k) next) && in_window (suc k) (take (suc k) next) window
        then suc k
        else shorter)

-- The last `max_tokens` words.
abbrev pub last_words : ℕ → List Chars → List Chars
last_words n ts = drop (length ts - n) ts

unfoldable pub stripped_words : ℕ → List Chars → List Chars → ℕ
stripped_words max_tokens prev next =
    let window = last_words max_tokens (map norm_token prev) in
    found_prefix (min (min max_tokens (length window)) (length next)) window (map norm_token next)

abbrev pub cut_text : ℕ → Chars → Chars
cut_text zero text = text
cut_text (suc k) text = join (drop (suc k) (split text))

-- `_strip_overlap`.
unfoldable pub strip_overlap : ℕ → Chars → Chars → Chars
unfolding stripped_words
strip_overlap max_tokens prev next =
    if is_empty (split prev) || is_empty (split next)
    then next
    else cut_text (stripped_words max_tokens (split prev) (split next)) next

unfoldable pub merge_segments : List Segment → List Segment
unfolding strip_overlap
merge_segments segments = merge_by (λ prev nxt. strip_overlap 50 prev.text nxt.text) segments
