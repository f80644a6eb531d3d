-- ===== src/Stt/Chunker/Seams.antt =====
-- What the joining at a seam leaves out (`merge_vad_segments` of src/chunker.py).
use lb_note.Base.{
  ℕ, zero, suc, ◌-◌, ◌≡◌, ◌≤◌, refl, sym, ap, subst, ◌∙◌, List, [], ◌∷◌, ◌++◌, arith, ◌==◌, ==_iff,
  nat_Eq, list_Eq, min, length, take, drop, Bool-cases, inl, inr, true≢false, false,
}
use lb_note.Base.Chars.{Chars}
use lb_note.Stt.Chunker.Merge.{overlap, seam_overlap, dedup}

take-drop {ℓ} : {A : Type ℓ} (n : ℕ) (xs : List A) → take n xs ++ drop n xs ≡ xs
take-drop zero xs = refl
take-drop (suc n) [] = refl
take-drop (suc n) (x ∷ xs) = ap (λ r. x ∷ r) (take-drop n xs)

append_assoc {ℓ} : {A : Type ℓ} (xs ys zs : List A) → (xs ++ ys) ++ zs ≡ xs ++ (ys ++ zs)
append_assoc [] ys zs = refl
append_assoc (x ∷ xs) ys zs = ap (λ r. x ∷ r) (append_assoc xs ys zs)

-- The first words that are left out are the last words of the text before.
abbrev pub Repeats : ℕ → List Chars → List Chars → Type 0
Repeats k prev w = drop (length prev - k) prev ≡ take k w

drop_all {ℓ} : {A : Type ℓ} (xs : List A) → drop (length xs) xs ≡ []
drop_all [] = refl
drop_all (x ∷ xs) = drop_all xs

none_repeated : (prev w : List Chars) → Repeats 0 prev w
none_repeated prev w = ap (λ n. drop n prev) (omega arith) ∙ drop_all prev

overlap-Repeats : (k : ℕ) (prev w : List Chars) → Repeats (overlap k prev w) prev w
overlap-Repeats zero prev w = none_repeated prev w
overlap-Repeats (suc k) prev w =
    elim (Bool-cases (drop (length prev - suc k) prev == take (suc k) w)) [
      | inl y ↦ rw y ((==_iff (drop (length prev - suc k) prev) (take (suc k) w)).0 y)
      | inr n ↦ rw n (overlap-Repeats k prev w)
    ]

overlap_le : (k : ℕ) (prev w : List Chars) → overlap k prev w ≤ k
overlap_le zero prev w = omega arith
overlap_le (suc k) prev w = elim (Bool-cases (drop (length prev - suc k) prev == take (suc k) w)) [
  | inl y ↦ rw y (omega arith)
  | inr n ↦ rw n (omega (arith, overlap_le k prev w))
]

le_step : (j k : ℕ) → j ≤ suc k → (j == suc k) ≡ false → j ≤ k
le_step j k h n = ground arith

overlap-greatest : (k j : ℕ) (prev w : List Chars) → j ≤ k → Repeats j prev w → j ≤ overlap k prev w
overlap-greatest zero j prev w h r = h
overlap-greatest (suc k) j prev w h r =
    elim (Bool-cases (drop (length prev - suc k) prev == take (suc k) w)) [
      | inl y ↦ rw y h
      | inr n ↦ elim (Bool-cases (j == suc k)) [
        | inl same ↦ absurd (
            true≢false (
              sym (
                (==_iff (drop (length prev - suc k) prev) (take (suc k) w)).1
                  (subst (λ m. Repeats m prev w) ((==_iff j (suc k)).0 same) r))
              ∙ n))
        | inr less ↦ rw n (overlap-greatest k j prev w (le_step j k h less) r)
      ]
    ]

-- At a seam, the words that are left out are the longest repetition of at most twelve words: the end
-- of the text before is the beginning of the next. Nothing else is lost: the text before and what is
-- left of the next read as the text before without that end, and the whole of the next.
pub dedup_joins :
    (prev w : List Chars)
    → (k : ℕ) × (dedup prev w ≡ drop k w)
      × (k ≤ 12)
      × (prev ++ dedup prev w ≡ take (length prev - k) prev ++ w)
      × ((j : ℕ) → j ≤ 12 → j ≤ length prev → j ≤ length w → Repeats j prev w → j ≤ k)
unfolding dedup
dedup_joins prev w = (
  seam_overlap prev w,
  refl,
  omega (arith, overlap_le (min (min 12 (length prev)) (length w)) prev w),
  joined (seam_overlap prev w) (overlap-Repeats _ prev w),
  λ j a b c r. overlap-greatest _ j prev w (omega arith) r,
)
  where
    joined : (k : ℕ) → Repeats k prev w → prev ++ drop k w ≡ take (length prev - k) prev ++ w
    joined k r =
        ap (λ l. l ++ drop k w) (sym (take-drop (length prev - k) prev))
        ∙ append_assoc (take (length prev - k) prev) (drop (length prev - k) prev) (drop k w)
        ∙ ap (λ l. take (length prev - k) prev ++ (l ++ drop k w)) r
        ∙ ap (λ l. take (length prev - k) prev ++ l) (take-drop k w)
