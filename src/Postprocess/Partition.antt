-- ===== src/Postprocess/Partition.antt =====
-- What `partition` (src/postprocess/language_gate.py) keeps, marks and leaves out.
use lb_note.Base.{
  ℕ, ◌≡◌, refl, ap, ◌∙◌, Option, none, some, Bool, true, false, not, List, [], ◌∷◌, ◌++◌,
  if◌then◌else◌, ◌==◌, ==_refl, nat_Eq, select, All, Bool-cases, inl, inr,
}
use lb_note.Base.Dict.{Dict, get?, put, get?-put, is_some}
use lb_note.Postprocess.Language.{
  Reason, Verdict, ok, low_conf, exclude, Config, Segment, Parts, keep, place, part, parts,
  partition, classify,
}

abbrev pub verdict : Config → Segment → Option ℕ → Verdict
verdict cfg s none = ok
verdict cfg s (some sid) = classify cfg s.text s.start s.end

abbrev pub leaves_out : Verdict → Bool
leaves_out (exclude r) = true
leaves_out (low_conf r) = false
leaves_out ok = false

append_assoc :
    (xs : List Segment) (s : Segment) (ys : List Segment) → (xs ++ s ∷ []) ++ ys ≡ xs ++ s ∷ ys
append_assoc [] s ys = refl
append_assoc (x ∷ xs) s ys = ap (λ r. x ∷ r) (append_assoc xs s ys)

append_nil : (xs : List Segment) → xs ≡ xs ++ []
append_nil [] = refl
append_nil (x ∷ xs) = ap (λ r. x ∷ r) (append_nil xs)

place-kept :
    (s : Segment) (sid : ℕ) (v : Verdict) (p : Parts) (ys : List Segment)
    → (place s sid v p).kept ++ ys ≡ p.kept ++ (if not (leaves_out v) then s ∷ ys else ys)
place-kept s sid ok p ys = append_assoc p.kept s ys
place-kept s sid (low_conf r) p ys = append_assoc p.kept s ys
place-kept s sid (exclude r) p ys = refl

part-kept :
    (cfg : Config) (s : Segment) (i : Option ℕ) (p : Parts) (ys : List Segment)
    → (part cfg s i p).kept ++ ys
      ≡ p.kept ++ (if not (leaves_out (verdict cfg s i)) then s ∷ ys else ys)
part-kept cfg s none p ys = append_assoc p.kept s ys
part-kept cfg s (some sid) p ys = place-kept s sid (classify cfg s.text s.start s.end) p ys

parts-kept :
    (cfg : Config) (ss : List Segment) (p : Parts)
    → (parts cfg ss p).kept ≡ p.kept ++ select (λ s. not (leaves_out (verdict cfg s s.id))) ss
parts-kept cfg [] p = append_nil p.kept
parts-kept cfg (s ∷ ss) p = parts-kept cfg ss (part cfg s s.id p) ∙ part-kept cfg s s.id p _

-- The reason that is on record for a segment that is left out or marked.
abbrev pub OnRecord : Parts → Option ℕ → Verdict → Type 0
OnRecord p none v = Unit
OnRecord p (some sid) ok = Unit
OnRecord p (some sid) (low_conf r) = is_some (get? sid p.low) ≡ true
OnRecord p (some sid) (exclude r) = is_some (get? sid p.excluded) ≡ true

put_some :
    (i j : ℕ) (r : Reason) (d : Dict ℕ Reason)
    → is_some (get? i d) ≡ true
    → is_some (get? i (put j r d)) ≡ true
put_some i j r d h =
    rw (get?-put i j r d) (elim (Bool-cases (j == i)) [ inl y ↦ rw y refl | inr n ↦ rw n h ])

put_there : (i : ℕ) (r : Reason) (d : Dict ℕ Reason) → is_some (get? i (put i r d)) ≡ true
put_there i r d = rw (get?-put i i r d, ==_refl i) refl

place-OnRecord :
    (s : Segment) (sid : ℕ) (w : Verdict) (p : Parts) (i : Option ℕ) (v : Verdict)
    → OnRecord p i v
    → OnRecord (place s sid w p) i v
place-OnRecord s sid w p none v h = tt
place-OnRecord s sid w p (some i) ok h = tt
place-OnRecord s sid ok p (some i) (low_conf r) h = h
place-OnRecord s sid (low_conf q) p (some i) (low_conf r) h = put_some i sid q p.low h
place-OnRecord s sid (exclude q) p (some i) (low_conf r) h = h
place-OnRecord s sid ok p (some i) (exclude r) h = h
place-OnRecord s sid (low_conf q) p (some i) (exclude r) h = h
place-OnRecord s sid (exclude q) p (some i) (exclude r) h = put_some i sid q p.excluded h

keep-OnRecord :
    (s : Segment) (p : Parts) (i : Option ℕ) (v : Verdict)
    → OnRecord p i v
    → OnRecord (keep s p) i v
keep-OnRecord s p none v h = tt
keep-OnRecord s p (some i) ok h = tt
keep-OnRecord s p (some i) (low_conf r) h = h
keep-OnRecord s p (some i) (exclude r) h = h

part-OnRecord :
    (cfg : Config) (s : Segment) (j : Option ℕ) (p : Parts) (i : Option ℕ) (v : Verdict)
    → OnRecord p i v
    → OnRecord (part cfg s j p) i v
part-OnRecord cfg s none p i v h = keep-OnRecord s p i v h
part-OnRecord cfg s (some sid) p i v h =
    place-OnRecord s sid (classify cfg s.text s.start s.end) p i v h

parts-OnRecord :
    (cfg : Config) (ss : List Segment) (p : Parts) (i : Option ℕ) (v : Verdict)
    → OnRecord p i v
    → OnRecord (parts cfg ss p) i v
parts-OnRecord cfg [] p i v h = h
parts-OnRecord cfg (s ∷ ss) p i v h =
    parts-OnRecord cfg ss (part cfg s s.id p) i v (part-OnRecord cfg s s.id p i v h)

placed : (s : Segment) (sid : ℕ) (v : Verdict) (p : Parts) → OnRecord (place s sid v p) (some sid) v
placed s sid ok p = tt
placed s sid (low_conf r) p = put_there sid r p.low
placed s sid (exclude r) p = put_there sid r p.excluded

parted :
    (cfg : Config) (s : Segment) (i : Option ℕ) (p : Parts)
    → OnRecord (part cfg s i p) i (verdict cfg s i)
parted cfg s none p = tt
parted cfg s (some sid) p = placed s sid (classify cfg s.text s.start s.end) p

recorded :
    (cfg : Config) (ss : List Segment) (p : Parts)
    → All (λ s. OnRecord (parts cfg ss p) s.id (verdict cfg s s.id)) ss
recorded cfg [] p = tt
recorded cfg (s ∷ ss) p = (
  parts-OnRecord cfg ss (part cfg s s.id p) s.id (verdict cfg s s.id) (parted cfg s s.id p),
  recorded cfg ss (part cfg s s.id p),
)

-- The segments that are kept are those that the gate does not exclude, all of them and in order (one
-- without a numeric id always is), and the id of every segment that it excludes or marks has a reason
-- in the map of its kind.
pub partition_complete :
    (cfg : Config) (ss : List Segment)
    → ((partition cfg ss).kept ≡ select (λ s. not (leaves_out (verdict cfg s s.id))) ss)
      × All (λ s. OnRecord (partition cfg ss) s.id (verdict cfg s s.id)) ss
unfolding partition
partition_complete cfg ss = (
  parts-kept cfg ss (record { kept = []; low = []; excluded = [] }),
  recorded cfg ss (record { kept = []; low = []; excluded = [] }),
)
