-- ===== src/Stt/Chunker/FixedCut.antt =====
-- What `chunk_audio` of src/chunker.py cuts the audio into.
use lb_note.Base.{
  ℕ, zero, suc, ◌+◌, ◌-◌, ◌≤◌, ◌<◌, ◌≡◌, refl, Option, none, some, false, List, [], ◌∷◌, arith, leb,
  min, Bool-cases, inl, inr, lt→ltb, lt→leb, subst,
}
use lb_note.Stt.Chunker.Fixed.{
  AudioChunk, cons, Ends, Ends-some, chunk_at, cut, chunks, Floats, chunk_audio,
}

-- Chunks from a start to the end of the audio: each but the last has the full length, the next
-- starts an overlap before its end, and the last ends with the audio. They are numbered in order.
abbrev pub IsCut : ℕ → ℕ → ℕ → ℕ → ℕ → List AudioChunk → Type 0
IsCut total chunk_n overlap_n idx start [] = ⊥
IsCut total chunk_n overlap_n idx start (c ∷ []) =
    (c.index ≡ idx) × (c.start ≡ start) × (c.stop ≡ total) × (total ≤ start + chunk_n)
IsCut total chunk_n overlap_n idx start (c ∷ d ∷ cs) =
    (c.index ≡ idx)
    × (c.start ≡ start)
    × (c.stop ≡ start + chunk_n)
    × (c.stop < total)
    × IsCut total chunk_n overlap_n (idx + 1) (c.stop - overlap_n) (d ∷ cs)

IsCut-cons :
    (total chunk_n overlap_n idx start : ℕ) (rest : Option (List AudioChunk))
    → overlap_n < chunk_n
    → start + chunk_n < total
    → Ends (IsCut total chunk_n overlap_n (idx + 1) (start + (chunk_n - overlap_n))) rest
    → Ends (IsCut total chunk_n overlap_n idx start) (cons (chunk_at total chunk_n idx start) rest)
IsCut-cons total chunk_n overlap_n idx start none o l h = h
IsCut-cons total chunk_n overlap_n idx start (some []) o l h = absurd h
IsCut-cons total chunk_n overlap_n idx start (some (d ∷ cs)) o l h = (
  refl,
  refl,
  omega arith,
  omega arith,
  subst (λ x. IsCut total chunk_n overlap_n (idx + 1) x (d ∷ cs)) (omega arith) h,
)

cut-IsCut :
    (fuel total chunk_n overlap_n idx start : ℕ)
    → overlap_n < chunk_n
    → start < total
    → total < fuel + start
    → Ends
        (IsCut total chunk_n overlap_n idx start)
        (cut fuel total chunk_n (chunk_n - overlap_n) idx start)
unfolding cut
cut-IsCut zero total chunk_n overlap_n idx start o l f = absurd (omega arith)
cut-IsCut (suc fuel) total chunk_n overlap_n idx start o l f =
    elim (Bool-cases (leb total (min (start + chunk_n) total))) [
      | inl last ↦ rw (lt→ltb start total l, last) (refl, refl, ground arith, ground arith)
      | inr more ↦
          rw (lt→ltb start total l, more)
            (IsCut-cons total chunk_n overlap_n idx start _ o (ground arith) (
              cut-IsCut fuel total chunk_n overlap_n (idx + 1) (start + (chunk_n - overlap_n)) o
                (ground arith) (omega arith)))
    ]

back : (chunk_n step_n : ℕ) → step_n ≤ chunk_n → chunk_n - (chunk_n - step_n) ≡ step_n
back chunk_n step_n h = omega arith

-- A step of no sample: the loop stays at its first chunk.
stuck : (fuel total chunk_n idx : ℕ) → chunk_n < total → cut fuel total chunk_n 0 idx 0 ≡ none
unfolding cut
stuck zero total chunk_n idx h = refl
stuck (suc fuel) total chunk_n idx h =
    let more : leb total (min (0 + chunk_n) total) ≡ false = ground arith in
    rw (lt→ltb 0 total (omega arith), more, stuck fuel total chunk_n (idx + 1) h) refl

-- The overlap is shorter than the chunk. When the difference of the two makes a step of at least one
-- sample, the loop ends within as many rounds as there are samples, and the chunks cover the audio from
-- its first sample to its last, each of the full length but the last, overlapping by exactly the length
-- less the step. When it makes a step of no sample and the audio is longer than a chunk, the loop never
-- ends.
pub chunk_audio-IsCut :
    (fl : Floats) (total chunk_sec overlap_sec : ℕ)
    → overlap_sec < chunk_sec
    → let chunk_n = fl.samples chunk_sec in
      let step_n = fl.samples (fl.minus chunk_sec overlap_sec) in
      (0 < step_n
        → (cs : List AudioChunk) × (chunk_audio fl (total + 1) total chunk_sec overlap_sec
            ≡ chunks (some cs))
          × IsCut total chunk_n (chunk_n - step_n) 0 0 cs)
      × (step_n ≡ 0
          → chunk_n < total
          → (fuel : ℕ) → chunk_audio fl fuel total chunk_sec overlap_sec ≡ chunks none)
unfolding chunk_audio
chunk_audio-IsCut fl total chunk_sec overlap_sec o =
    let chunk_n = fl.samples chunk_sec in
    let step_n = fl.samples (fl.minus chunk_sec overlap_sec) in
    let short_step : step_n ≤ chunk_n =
      fl.samples_mono _ _ (fl.minus_le chunk_sec overlap_sec (omega arith)) in
    (
      λ s. elim (Bool-cases (leb total chunk_n)) [
        | inl short ↦ (
          record { index = 0; start = 0; stop = total; is_overlap_seam = false } ∷ [],
          rw (lt→leb chunk_sec overlap_sec o, short) refl,
          (refl, refl, refl, ground arith),
        )
        | inr long ↦
            let (cs, e, h) =
              Ends-some (IsCut total chunk_n (chunk_n - step_n) 0 0)
                (cut (total + 1) total chunk_n step_n 0 0)
                (subst
                  (λ n.
                    Ends (IsCut total chunk_n (chunk_n - step_n) 0 0)
                      (cut (total + 1) total chunk_n n 0 0))
                  (back chunk_n step_n short_step)
                  (cut-IsCut (total + 1) total chunk_n (chunk_n - step_n) 0 0 (omega arith)
                    (ground arith) (omega arith))) in
            (cs, rw (lt→leb chunk_sec overlap_sec o, long, e) refl, h)
      ],
      λ z more fuel.
          let long : leb total chunk_n ≡ false = ground arith in
          rw (lt→leb chunk_sec overlap_sec o, long, z, stuck fuel total chunk_n 0 more) refl,
    )
