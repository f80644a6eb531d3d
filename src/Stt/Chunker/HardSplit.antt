-- ===== src/Stt/Chunker/HardSplit.antt =====
-- Spans that are short and cover what they must, and the hard split of a long region in
-- `vad_segment_chunks` (src/chunker.py).
use lb_note.Base.{
  ℕ, zero, suc, ◌+◌, ◌-◌, ◌≤◌, ◌<◌, ◌≡◌, ◌⊎◌, inl, inr, Option, none, some, Bool, true, false, List,
  [], ◌∷◌, ◌++◌, arith, All, All-append, ltb, leb, min, Bool-cases, ltb→lt, ltb→le,
}
use lb_note.Stt.Chunker.Fixed.{cons, Ends}
use lb_note.Stt.Chunker.Vad.{Region, Span, hard_split, after, join}

abbrev pub IsShort : ℕ → Span → Type 0
IsShort target (s, e, seam) = e ≤ s + target

-- An instant lies in one of the spans.
abbrev pub Covers : ℕ → List Span → Type 0
Covers x [] = ⊥
Covers x ((s, e, seam) ∷ xs) = ((s ≤ x) × (x < e)) ⊎ Covers x xs

-- An instant lies in one of the regions.
abbrev pub Speech : ℕ → List Region → Type 0
Speech x [] = ⊥
Speech x ((s, e) ∷ rs) = ((s ≤ x) × (x < e)) ⊎ Speech x rs

Covers-right : (x : ℕ) (xs ys : List Span) → Covers x ys → Covers x (xs ++ ys)
Covers-right x [] ys h = h
Covers-right x (a ∷ xs) ys h = inr (Covers-right x xs ys h)

Covers-left : (x : ℕ) (xs ys : List Span) → Covers x xs → Covers x (xs ++ ys)
Covers-left x (a ∷ xs) ys (inl h) = inl h
Covers-left x (a ∷ xs) ys (inr h) = inr (Covers-left x xs ys h)
Covers-left x [] ys h = absurd h

-- Spans that are short and cover what a test asks for.
abbrev pub Good : ℕ → (ℕ → Type 0) → List Span → Type 0
Good target P xs = All (IsShort target) xs × ((x : ℕ) → P x → Covers x xs)

Good-cons :
    (target : ℕ) (P Q : ℕ → Type 0) (a : Span) (r : Option (List Span))
    → IsShort target a
    → ((x : ℕ) → P x → Covers x (a ∷ []) ⊎ Q x)
    → Ends (Good target Q) r
    → Ends (Good target P) (cons a r)
Good-cons target P Q a none s f h = absurd h
Good-cons target P Q a (some xs) s f h = ((s, h.0), λ x p. split x (f x p))
  where
    split : (x : ℕ) → Covers x (a ∷ []) ⊎ Q x → Covers x (a ∷ xs)
    split x (inl (inl c)) = inl c
    split x (inl (inr c)) = absurd c
    split x (inr q) = inr (h.1 x q)

pub Good-after :
    (target : ℕ) (P Q : ℕ → Type 0) (xs : List Span) (r : Option (List Span))
    → All (IsShort target) xs
    → ((x : ℕ) → P x → Covers x xs ⊎ Q x)
    → Ends (Good target Q) r
    → Ends (Good target P) (after xs r)
Good-after target P Q xs none s f h = absurd h
Good-after target P Q xs (some ys) s f h =
    (All-append (IsShort target) xs ys s h.0, λ x p. split x (f x p))
  where
    split : (x : ℕ) → Covers x xs ⊎ Q x → Covers x (xs ++ ys)
    split x (inl c) = Covers-left x xs ys c
    split x (inr q) = Covers-right x xs ys (h.1 x q)

pub Good-join :
    (target : ℕ) (P Q : ℕ → Type 0) (l r : Option (List Span))
    → Ends (Good target P) l
    → Ends (Good target Q) r
    → Ends (Good target (λ x. P x ⊎ Q x)) (join l r)
Good-join target P Q none r h k = absurd h
Good-join target P Q (some xs) r h k = Good-after target (λ x. P x ⊎ Q x) Q xs r h.0 split k
  where
    split : (x : ℕ) → P x ⊎ Q x → Covers x xs ⊎ Q x
    split x (inl p) = inl (h.1 x p)
    split x (inr q) = inr q

abbrev pub Within : ℕ → ℕ → ℕ → Type 0
Within s e x = (s ≤ x) × (x < e)

pub hard_split-Good :
    (fuel target overlap t e : ℕ) (seam : Bool)
    → overlap < target
    → 0 < fuel
    → e < fuel + t
    → Ends (Good target (Within t e)) (hard_split fuel target overlap t e seam)
unfolding hard_split
hard_split-Good zero target overlap t e seam o p f = absurd (omega arith)
hard_split-Good (suc fuel) target overlap t e seam o p f = elim (Bool-cases (ltb t e)) [
  | inr out ↦ rw out (tt, λ x w. absurd (ground arith))
  | inl run ↦ elim (Bool-cases (leb e (min (t + target) e))) [
    | inl last ↦ rw (run, last) ((omega arith, tt), λ x w. inl (w.0, ground arith))
    | inr more ↦
        rw (run, more)
          (Good-cons target (Within t e) (Within (min (t + target) e - overlap) e)
            (t, min (t + target) e, seam) _ (omega arith) (step more)
            (hard_split-Good fuel target overlap (min (t + target) e - overlap) e true o
              (ground arith) (ground arith)))
  ]
]
  where
    step :
        leb e (min (t + target) e) ≡ false
        → (x : ℕ) → Within t e x
        → Covers x ((t, min (t + target) e, seam) ∷ []) ⊎ Within (min (t + target) e - overlap) e x
    step more x w = elim (Bool-cases (ltb x (min (t + target) e))) [
      | inl l ↦ inl (inl (w.0, ltb→lt x _ l))
      | inr g ↦ inr (let g' = ltb→le x _ g in omega arith, w.1)
    ]
