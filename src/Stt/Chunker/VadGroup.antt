-- ===== src/Stt/Chunker/VadGroup.antt =====
-- The loop of `vad_segment_chunks` (src/chunker.py) over the regions keeps spans short and covers
-- each region.
use lb_note.Base.{
  ℕ, ◌+◌, ◌≤◌, ◌<◌, ◌≡◌, ◌⊎◌, inl, inr, Option, none, some, true, false, List, [], ◌∷◌, arith, All,
  ltb, Bool-cases, ltb→le, leb→le,
}
use lb_note.Stt.Chunker.Fixed.{Ends}
use lb_note.Stt.Chunker.Vad.{Region, Span, flush, fits, extend, group}
use lb_note.Stt.Chunker.HardSplit.{
  IsShort, Covers, Speech, Good, Good-after, Good-join, Within, hard_split-Good,
}

-- Regions in order: neither starts nor ends go back.
abbrev pub Rising : ℕ → ℕ → List Region → Type 0
Rising lo hi [] = Unit
Rising lo hi ((s, e) ∷ rs) = (lo ≤ s) × (hi ≤ e) × Rising s e rs

-- The regions end before a bound.
abbrev pub EndBefore : ℕ → List Region → Type 0
EndBefore n = All (λ (r : Region). r.1 < n)

-- What is still to be covered: the open chunk and the regions that follow.
abbrev pub Open : ℕ → Option Region → Type 0
Open x none = ⊥
Open x (some (s, e)) = Within s e x

abbrev pub IsOpen : ℕ → Option Region → List Region → Type 0
IsOpen target none rs = Rising 0 0 rs
IsOpen target (some (s, e)) rs = (e ≤ s + target) × Rising s e rs

Rising-lower :
    (lo lo' hi hi' : ℕ) (rs : List Region)
    → lo' ≤ lo
    → hi' ≤ hi
    → Rising lo hi rs
    → Rising lo' hi' rs
Rising-lower lo lo' hi hi' [] h k r = tt
Rising-lower lo lo' hi hi' ((s, e) ∷ rs) h k r = (omega arith, omega arith, r.2)

flush-IsShort :
    (target : ℕ) (cur : Option Region) (rs : List Region)
    → IsOpen target cur rs
    → All (IsShort target) (flush cur)
flush-IsShort target none rs h = tt
flush-IsShort target (some (s, e)) rs h = (h.0, tt)

flush-Covers : (x : ℕ) (cur : Option Region) → Open x cur → Covers x (flush cur)
flush-Covers x none h = h
flush-Covers x (some (s, e)) h = inl h

Rising-of_IsOpen :
    (target : ℕ) (cur : Option Region) (s e : ℕ) (rs : List Region)
    → IsOpen target cur ((s, e) ∷ rs)
    → Rising s e rs
Rising-of_IsOpen target none s e rs h = h.2
Rising-of_IsOpen target (some c) s e rs h = h.1.2

extend-IsOpen :
    (target : ℕ) (cur : Option Region) (s e : ℕ) (rs : List Region)
    → fits target cur e ≡ true
    → IsOpen target cur ((s, e) ∷ rs)
    → IsOpen target (extend cur e) rs
extend-IsOpen target none s e rs f h = cc f
extend-IsOpen target (some (cs, ce)) s e rs f h =
    (leb→le e (cs + target) f, Rising-lower s cs e e rs h.1.0 (omega arith) h.1.2)

extend-Open :
    (target x : ℕ) (cur : Option Region) (s e : ℕ) (rs : List Region)
    → fits target cur e ≡ true
    → IsOpen target cur ((s, e) ∷ rs)
    → Open x cur ⊎ (Within s e x ⊎ Speech x rs)
    → Open x (extend cur e) ⊎ Speech x rs
extend-Open target x none s e rs f h p = cc f
extend-Open target x (some (cs, ce)) s e rs f h (inl o) = inl (omega arith)
extend-Open target x (some (cs, ce)) s e rs f h (inr (inl w)) = inl (omega arith)
extend-Open target x (some (cs, ce)) s e rs f h (inr (inr r)) = inr r

Good-map :
    (target : ℕ) (P Q : ℕ → Type 0) (r : Option (List Span))
    → ((x : ℕ) → P x → Q x)
    → Ends (Good target Q) r
    → Ends (Good target P) r
Good-map target P Q none f h = h
Good-map target P Q (some xs) f h = (h.0, λ x p. h.1 x (f x p))

flush_or : (x : ℕ) (cur : Option Region) (Q : Type 0) → Open x cur ⊎ Q → Covers x (flush cur) ⊎ Q
flush_or x cur Q (inl o) = inl (flush-Covers x cur o)
flush_or x cur Q (inr q) = inr q

-- `none` as the open chunk adds nothing.
without-Open : (x : ℕ) (rs : List Region) → Speech x rs → Open x none ⊎ Speech x rs
without-Open x rs r = inr r

pub group-Good :
    (fuel target overlap : ℕ) (cur : Option Region) (rs : List Region)
    → overlap < target
    → 0 < fuel
    → EndBefore fuel rs
    → IsOpen target cur rs
    → Ends (Good target (λ x. Open x cur ⊎ Speech x rs)) (group fuel target overlap cur rs)
unfolding group
group-Good fuel target overlap cur [] o p f h =
    (flush-IsShort target cur [] h, λ x q. covered x (flush_or x cur ⊥ q))
  where
    covered : (x : ℕ) → Covers x (flush cur) ⊎ ⊥ → Covers x (flush cur)
    covered x (inl c) = c
    covered x (inr b) = absurd b
group-Good fuel target overlap cur ((s, e) ∷ rs) o p f h =
    let rising = Rising-of_IsOpen target cur s e rs h in
    let lower = Rising-lower s 0 e 0 rs (omega arith) (omega arith) rising in
    elim (Bool-cases (ltb (s + target) e)) [
      | inl long ↦ rw long (
          Good-after target (λ x. Open x cur ⊎ Speech x ((s, e) ∷ rs)) (λ x. Speech x ((s, e) ∷ rs))
            (flush cur) _ (flush-IsShort target cur ((s, e) ∷ rs) h)
            (λ x. flush_or x cur (Speech x ((s, e) ∷ rs)))
            (Good-join target (Within s e) (λ x. Speech x rs) _ _
              (hard_split-Good fuel target overlap s e false o p (omega arith))
              (Good-map target (λ x. Speech x rs) (λ x. Open x none ⊎ Speech x rs) _
                (λ x. without-Open x rs) (group-Good fuel target overlap none rs o p f.1 lower))))
      | inr short ↦ elim (Bool-cases (fits target cur e)) [
        | inl fit ↦
            rw (short, fit)
              (Good-map target (λ x. Open x cur ⊎ Speech x ((s, e) ∷ rs))
                (λ x. Open x (extend cur e) ⊎ Speech x rs) _
                (λ x. extend-Open target x cur s e rs fit h)
                (group-Good fuel target overlap (extend cur e) rs o p f.1
                  (extend-IsOpen target cur s e rs fit h)))
        | inr gap ↦
            rw (short, gap)
              (Good-after target (λ x. Open x cur ⊎ Speech x ((s, e) ∷ rs))
                (λ x. Open x (some (s, e)) ⊎ Speech x rs) (flush cur) _
                (flush-IsShort target cur ((s, e) ∷ rs) h)
                (λ x. flush_or x cur (Speech x ((s, e) ∷ rs)))
                (group-Good fuel target overlap (some (s, e)) rs o p f.1
                  (ltb→le (s + target) e short, rising)))
      ]
    ]
