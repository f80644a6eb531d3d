-- ===== src/Stt/Repetition.antt =====
-- The folding of repeated phrases (src/repetition.py), on the tokens of a text.
use lb_note.Base.{
  ℕ, zero, suc, ◌+◌, ◌*◌, Option, none, some, Bool, true, false, ◌&&◌, List, [], ◌∷◌, ◌++◌,
  if◌then◌else◌, ltb, leb, min, length, take, drop, ◌==◌, nat_Eq, list_Eq,
}
use lb_note.Base.Chars.{Chars}

-- The repetitions that follow the first; the fuel is the number of tokens left.
abbrev pub more_reps : ℕ → ℕ → List Chars → List Chars → ℕ
more_reps zero u unit rest = 0
more_reps (suc fuel) u unit rest =
    let more = more_reps fuel u unit (drop u rest) in
    if leb u (length rest) && (take u rest == unit) then more + 1 else 0

abbrev pub reps : ℕ → List Chars → ℕ
reps u tokens = more_reps (length tokens) u (take u tokens) (drop u tokens) + 1

abbrev pub covers_more : ℕ → ℕ → Option (ℕ × ℕ) → Bool
covers_more u r none = true
covers_more u r (some (v, q)) = ltb (v * q) (u * r)

abbrev pub better : ℕ → ℕ → ℕ → Option (ℕ × ℕ) → Option (ℕ × ℕ)
better max_repeat u r best = if ltb max_repeat r && covers_more u r best then some (u, r) else best

-- The loop over the lengths of a unit, `n` of them from `u` on.
abbrev pub best_unit : ℕ → ℕ → ℕ → List Chars → Option (ℕ × ℕ) → Option (ℕ × ℕ)
best_unit zero u max_repeat tokens best = best
best_unit (suc n) u max_repeat tokens best =
    best_unit n (u + 1) max_repeat tokens (better max_repeat u (reps u tokens) best)

-- `MAX_UNIT`.
abbrev pub max_unit : ℕ
max_unit = 6

abbrev pub copies : ℕ → List Chars → List Chars
copies zero unit = []
copies (suc n) unit = unit ++ copies n unit

abbrev pub fold_first :
    ℕ → List Chars → (List Chars → List Chars × Bool) → Option (ℕ × ℕ) → List Chars × Bool
fold_first keep [] next best = ([], false)
fold_first keep (t ∷ ts) next none = let (out, collapsed) = next ts in (t ∷ out, collapsed)
fold_first keep (t ∷ ts) next (some (u, r)) =
    (copies keep (take u (t ∷ ts)) ++ (next (drop (u * r) (t ∷ ts))).0, true)

-- The `while` loop, on fuel for its rounds: each takes a token at least.
abbrev pub collapse : ℕ → ℕ → ℕ → List Chars → List Chars × Bool
collapse zero max_repeat keep tokens = ([], false)
collapse (suc fuel) max_repeat keep tokens =
    fold_first keep tokens (collapse fuel max_repeat keep)
      (best_unit (min max_unit (length tokens)) 1 max_repeat tokens none)

-- The original text, or the tokens that are joined to a new one.
pub data Collapsed : Type 0 where
  unchanged : Collapsed
  folded : List Chars → Collapsed

abbrev pub if_collapsed : List Chars × Bool → Collapsed
if_collapsed (out, true) = folded out
if_collapsed (out, false) = unchanged

unfoldable pub collapse_repetitions : ℕ → ℕ → List Chars → Collapsed
collapse_repetitions max_repeat keep tokens =
    if ltb (length tokens) 2
    then unchanged
    else if_collapsed (collapse (length tokens) max_repeat keep tokens)
