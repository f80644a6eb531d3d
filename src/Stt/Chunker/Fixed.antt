-- ===== src/Stt/Chunker/Fixed.antt =====
-- The fixed-length chunks of src/chunker.py: `AudioChunk` and `chunk_audio`.
use lb_note.Base.{
  ℕ, zero, suc, ◌+◌, ◌≤◌, ◌≡◌, refl, Option, none, some, Bool, false, List, [], ◌∷◌, ltb, leb,
  if◌then◌else◌, min,
}

-- A chunk, `audio[start:stop]`, with its number and whether it overlaps the one before by a hard
-- split.
pub record AudioChunk : Type 0 where
  pub index : ℕ
  pub start : ℕ
  pub stop : ℕ
  pub is_overlap_seam : Bool

-- One more item in front of what a loop collects; `none` is a loop that did not end.
abbrev pub cons {ℓ} : {A : Type ℓ} → A → Option (List A) → Option (List A)
cons x none = none
cons x (some xs) = some (x ∷ xs)

-- What a loop collects has a property, and so it ended.
abbrev pub Ends {ℓ} : {A : Type ℓ} → (List A → Type 0) → Option (List A) → Type 0
Ends P none = ⊥
Ends P (some xs) = P xs

pub Ends-some {ℓ} :
    {A : Type ℓ} (P : List A → Type 0) (r : Option (List A))
    → Ends P r
    → (xs : List A) × (r ≡ some xs) × P xs
Ends-some P none h = absurd h
Ends-some P (some xs) h = (xs, refl, h)

-- The chunk at a start.
abbrev pub chunk_at : ℕ → ℕ → ℕ → ℕ → AudioChunk
chunk_at total chunk_n idx start = record {
  index = idx;
  start = start;
  stop = min (start + chunk_n) total;
  is_overlap_seam = false;
}

-- The `while` loop of `chunk_audio`, on fuel.
unfoldable pub cut : ℕ → ℕ → ℕ → ℕ → ℕ → ℕ → Option (List AudioChunk)
cut zero total chunk_n step_n idx start = none
cut (suc fuel) total chunk_n step_n idx start =
    let c = chunk_at total chunk_n idx start in
    let rest = cut fuel total chunk_n step_n (idx + 1) (start + step_n) in
    if ltb start total then (if leb total c.stop then some (c ∷ []) else cons c rest) else some []

pub data Chunked : Type 0 where
  value_error : Chunked
  chunks : Option (List AudioChunk) → Chunked

-- The arithmetic of floats on seconds, which are multiples of the smallest float: the difference, rounded
-- to a float, and `int(round(x * sr))` at the sample rate of the call.
pub record Floats : Type 0 where
  pub minus : ℕ → ℕ → ℕ
  pub samples : ℕ → ℕ
  pub minus_le : (a b : ℕ) → b ≤ a → minus a b ≤ a
  pub samples_mono : (a b : ℕ) → a ≤ b → samples a ≤ samples b

-- `chunk_audio` on an array of `total` samples, with the fuel that its loop is run on.
unfoldable pub chunk_audio : Floats → ℕ → ℕ → ℕ → ℕ → Chunked
unfolding cut
chunk_audio fl fuel total chunk_sec overlap_sec =
    let chunk_n = fl.samples chunk_sec in
    let step_n = fl.samples (fl.minus chunk_sec overlap_sec) in
    if leb chunk_sec overlap_sec
    then value_error
    else (if leb total chunk_n
        then chunks
            (some (record { index = 0; start = 0; stop = total; is_overlap_seam = false } ∷ []))
        else chunks (cut fuel total chunk_n step_n 0 0))
