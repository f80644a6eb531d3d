-- ===== src/Postprocess/Validate.antt =====
-- The gate of src/postprocess/validate.py, with the whitelist of homophone.py.
use lb_note.Base.{
  is_in, distinct, ℕ, zero, suc, ◌*◌, Option, none, some, Bool, true, false, not, ◌&&◌, List, [],
  ◌∷◌, ◌++◌, String, if◌then◌else◌, ltb, ◌==◌, nat_Eq, list_Eq, select, length,
}
use lb_note.Base.Chars.{Chars, strip, is_empty}
use lb_note.Stt.Scoring.Rates.{rate}
use lb_note.Postprocess.Tokens.{digit, tokens, is_number, occurs}

-- `HOMOPHONE_MAP`.
abbrev pub homophones : List (Chars × Chars)
homophones = (53 ∷ 53456 ∷ [], 50724 ∷ 53456 ∷ []) ∷ []

abbrev pub single : ℕ → Chars
single c = c ∷ []

abbrev pub digits_of : Chars → List Chars
digits_of [] = []
digits_of (c ∷ s) = if digit c then single c ∷ digits_of s else digits_of s

abbrev pub excused_by : List (Chars × Chars) → Chars → Chars → List Chars
excused_by [] original cleaned = []
excused_by ((mis, cor) ∷ ms) original cleaned =
    if occurs mis original && occurs cor cleaned
    then digits_of mis ++ excused_by ms original cleaned
    else excused_by ms original cleaned

-- `excused_digits`.
abbrev pub excused_digits : Chars → Chars → List Chars
excused_digits original cleaned = excused_by homophones original cleaned

-- A quotient, numerator first.
abbrev pub Ratio : Type 0
Ratio = ℕ × ℕ

abbrev pub less : Ratio → Ratio → Bool
less (a, b) (c, d) = ltb (a * d) (c * b)

-- `edit_ratio`; `none` would be an `IndexError`, which the distance never raises.
unfoldable pub edit_ratio : Chars → Chars → Option Ratio
edit_ratio original cleaned = rate (strip original) (strip cleaned)

abbrev pub below : Option Ratio → Ratio → Bool
below none lo = false
below (some r) lo = less r lo

abbrev pub above : Option Ratio → Ratio → Bool
above none hi = false
above (some r) hi = less hi r

-- `within_edit_band`.
unfoldable pub within_edit_band : Chars → Chars → Ratio → Ratio → Bool
unfolding edit_ratio
within_edit_band original cleaned lo hi =
    not (below (edit_ratio original cleaned) lo) && not (above (edit_ratio original cleaned) hi)

abbrev pub is_zero : Option Ratio → Bool
is_zero none = false
is_zero (some (n, d)) = n == 0

-- `kept / len(present)`, and 1 where there is nothing to keep.
abbrev pub share : List Chars → List Chars → Ratio
share kept [] = (1, 1)
share kept (t ∷ ts) = (length kept, length (t ∷ ts))

abbrev pub present_terms : Chars → List Chars → List Chars
present_terms original terms = select (λ t. not (is_empty t) && occurs t original) terms

-- `glossary_terms_preserved`.
unfoldable pub glossary_terms_preserved : Chars → Chars → List Chars → Ratio
glossary_terms_preserved original cleaned terms =
    share (select (λ t. occurs t cleaned) (present_terms original terms))
      (present_terms original terms)

abbrev pub original_numbers : Chars → Chars → List Chars
original_numbers original cleaned =
    distinct (
      select (λ t. is_number t && not (is_in t (excused_digits original cleaned)))
        (tokens original))

-- `number_tokens_preserved`.
unfoldable pub number_tokens_preserved : Chars → Chars → Ratio
number_tokens_preserved original cleaned =
    share
      (select (λ t. is_in t (select is_number (tokens cleaned)))
        (original_numbers original cleaned))
      (original_numbers original cleaned)

-- `content_preserved`.
unfoldable pub content_preserved : Chars → Chars → List Chars → Bool
content_preserved original cleaned terms =
    if less (glossary_terms_preserved original cleaned terms) (1, 1)
    then false
    else (if less (number_tokens_preserved original cleaned) (1, 1) then false else true)

-- `CleanedSegment`; its texts are code points, and the ratio is not rounded.
pub record Segment : Type 0 where
  pub id : ℕ
  pub start : ℕ
  pub end : ℕ
  pub original : Chars
  pub cleaned : Chars
  pub edits : List String
  pub ratio : Option Ratio
  pub flag : Option String
  pub redecoded : Bool

pub data Reason : Type 0 where
  empty_cleaned over_edit under_edit no_edit content_dropped semantic_drift : Reason

-- The keyword arguments of the gate.
pub record Gate : Type 0 where
  pub terms : List Chars
  pub lo : Ratio
  pub hi : Ratio
  pub require_edit : Bool
  pub semantic_check : Option (Chars → Chars → Bool)

abbrev pub drifts : Option (Chars → Chars → Bool) → Chars → Chars → Bool
drifts none original cleaned = false
drifts (some check) original cleaned = not (check original cleaned)

abbrev pub when : Bool → Reason → List Reason → List Reason
when b r rs = if b then r ∷ rs else rs

-- `validate_segment`: the reasons, in order; the segment passes where there are none.
unfoldable pub validate_segment : Gate → Segment → List Reason
validate_segment g seg =
    let r = edit_ratio seg.original seg.cleaned in
    when (is_empty (strip seg.cleaned)) empty_cleaned (
      when (above r g.hi) over_edit (
        when (below r g.lo) under_edit (
          when (g.require_edit && is_zero r) no_edit (
            when (not (content_preserved seg.original seg.cleaned g.terms)) content_dropped
              (when (drifts g.semantic_check seg.original seg.cleaned) semantic_drift [])))))

-- The loop: it stops at a segment that passes, without a hook, or after the last retry.
abbrev pub retry_loop : ℕ → Option (Segment → List Reason → Segment) → Gate → Segment → Segment
retry_loop zero retry g seg = seg
retry_loop (suc n) none g seg = seg
retry_loop (suc n) (some retry) g seg =
    let again = retry_loop n (some retry) g (retry seg (validate_segment g seg)) in
    if is_empty (validate_segment g seg) then seg else again

-- `FLAG_REVIEW`: 확인필요.
abbrev pub flag_review : String
flag_review = "확인필요"

abbrev pub degraded : Segment → Segment
degraded seg = record seg {
  cleaned = seg.original;
  edits = [];
  ratio = some (0, 1);
  flag = some flag_review;
}

abbrev pub stamped : Segment → Segment
stamped seg = record seg { ratio = edit_ratio seg.original seg.cleaned }

-- `repair_or_degrade`.
unfoldable pub repair_or_degrade :
    ℕ → Option (Segment → List Reason → Segment) → Gate → Segment → Segment
repair_or_degrade max_retries retry g seg =
    let last = retry_loop max_retries retry g seg in
    if is_empty (validate_segment g last) then stamped last else degraded last
