-- ===== src/Postprocess/Language.antt =====
-- The language gate on segments (src/postprocess/language_gate.py). Times are in milliseconds, and the
-- thresholds of the configuration are arguments.
use lb_note.Base.{
  ℕ, ◌+◌, ◌*◌, ◌-◌, Option, none, some, Bool, true, false, not, ◌&&◌, ◌||◌, List, [], ◌∷◌, ◌++◌,
  if◌then◌else◌, ltb, leb, ◌==◌, nat_Eq, select, length,
}
use lb_note.Base.Dict.{Dict, put}
use lb_note.Base.Chars.{Chars, strip, is_empty}
use lb_note.Postprocess.Tokens.{kind, occurs}
use lb_note.Postprocess.Validate.{Ratio, less}

pub data Reason : Type 0 where
  non_korean speech_rate boilerplate mostly_non_korean : Reason

-- A verdict with its reason; `ok` has none.
pub data Verdict : Type 0 where
  ok : Verdict
  low_conf exclude : Reason → Verdict

-- `re.IGNORECASE` on the letters of the phrases.
abbrev pub fold_case : ℕ → ℕ
fold_case c =
    if leb 65 c && leb c 90
    then c + 32
    else (if c == 383
        then 115
        else (if c == 8490 then 107 else (if (c == 304) || (c == 305) then 105 else c)))

abbrev pub fold : Chars → Chars
fold [] = []
fold (c ∷ s) = fold_case c ∷ fold s

-- The texts that `_BOILERPLATE_RE` matches.
abbrev pub phrases : List Chars
phrases =
    (116 ∷ 104 ∷ 97 ∷ 110 ∷ 107 ∷ 32 ∷ 121 ∷ 111 ∷ 117 ∷ 32 ∷ 102 ∷ 111 ∷ 114 ∷ 32 ∷ 119 ∷ 97 ∷ 116
      ∷ 99 ∷ 104 ∷ 105 ∷ 110 ∷ 103 ∷ [])
    ∷ (116 ∷ 104 ∷ 97 ∷ 110 ∷ 107 ∷ 115 ∷ 32 ∷ 102 ∷ 111 ∷ 114 ∷ 32 ∷ 119 ∷ 97 ∷ 116 ∷ 99 ∷ 104
        ∷ 105 ∷ 110 ∷ 103 ∷ [])
    ∷ (112 ∷ 108 ∷ 101 ∷ 97 ∷ 115 ∷ 101 ∷ 32 ∷ 115 ∷ 117 ∷ 98 ∷ 115 ∷ 99 ∷ 114 ∷ 105 ∷ 98 ∷ 101
        ∷ [])
    ∷ (115 ∷ 117 ∷ 98 ∷ 116 ∷ 105 ∷ 116 ∷ 108 ∷ 101 ∷ 32 ∷ 98 ∷ 121 ∷ [])
    ∷ (115 ∷ 117 ∷ 98 ∷ 116 ∷ 105 ∷ 116 ∷ 108 ∷ 101 ∷ 115 ∷ 32 ∷ 98 ∷ 121 ∷ [])
    ∷ (115 ∷ 117 ∷ 98 ∷ 116 ∷ 105 ∷ 116 ∷ 108 ∷ 101 ∷ 32 ∷ 112 ∷ 114 ∷ 111 ∷ 118 ∷ 105 ∷ 100 ∷ 101
        ∷ 100 ∷ 32 ∷ 98 ∷ 121 ∷ [])
    ∷ (115 ∷ 117 ∷ 98 ∷ 116 ∷ 105 ∷ 116 ∷ 108 ∷ 101 ∷ 115 ∷ 32 ∷ 112 ∷ 114 ∷ 111 ∷ 118 ∷ 105 ∷ 100
        ∷ 101 ∷ 100 ∷ 32 ∷ 98 ∷ 121 ∷ [])
    ∷ (97 ∷ 109 ∷ 97 ∷ 114 ∷ 97 ∷ 46 ∷ 111 ∷ 114 ∷ 103 ∷ [])
    ∷ (52897 ∷ 49496 ∷ 32 ∷ 51228 ∷ 44277 ∷ [])
    ∷ (51088 ∷ 47561 ∷ 32 ∷ 51228 ∷ 44277 ∷ [])
    ∷ []

abbrev pub any_occurs : List Chars → Chars → Bool
any_occurs [] s = false
any_occurs (p ∷ ps) s = occurs p s || any_occurs ps s

abbrev pub is_boilerplate : Chars → Bool
is_boilerplate s = any_occurs phrases (fold s)

pub record Stats : Type 0 where
  pub hangul : ℕ
  pub latin : ℕ
  pub ratio : Ratio
  pub chars : ℕ
  pub per_second : Ratio

abbrev pub count_kind : ℕ → Chars → ℕ
count_kind k s = length (select (λ c. kind c == k) s)

abbrev pub hangul_ratio : ℕ → ℕ → Ratio
hangul_ratio hangul latin = if hangul + latin == 0 then (1, 1) else (hangul, hangul + latin)

-- `segment_stats`.
unfoldable pub segment_stats : Chars → ℕ → ℕ → Stats
segment_stats text start end = record {
  hangul = count_kind 3 text;
  latin = count_kind 2 text;
  ratio = hangul_ratio (count_kind 3 text) (count_kind 2 text);
  chars = length (strip text);
  per_second = (if ltb start end then (length (strip text) * 1000, end - start) else (0, 1));
}

pub record Config : Type 0 where
  pub enabled : Bool
  pub exclude_ratio : Ratio
  pub min_hangul : ℕ
  pub min_chars : ℕ
  pub max_cps : Ratio
  pub cps_ratio : Ratio
  pub low_conf_ratio : Ratio
  pub out_min_ratio : Ratio

-- `is_korean_output`; the text is stripped first.
unfoldable pub is_korean_output : Config → Chars → Bool
unfolding segment_stats
is_korean_output cfg text =
    let st = segment_stats (strip text) 0 0 in
    if is_empty (strip text)
    then true
    else (if st.hangul + st.latin == 0 then true else not (less st.ratio cfg.out_min_ratio))

abbrev pub judge : Config → Stats → Verdict
judge cfg st =
    if less st.ratio cfg.exclude_ratio && ltb st.hangul cfg.min_hangul
    then (if leb cfg.min_chars st.chars then exclude non_korean else low_conf mostly_non_korean)
    else (if less cfg.max_cps st.per_second && less st.ratio cfg.cps_ratio
        then exclude speech_rate
        else (if less st.ratio cfg.low_conf_ratio then low_conf mostly_non_korean else ok))

-- `classify`.
unfoldable pub classify : Config → Chars → ℕ → ℕ → Verdict
classify cfg text start end =
    if cfg.enabled
    then (if is_empty (strip text)
        then ok
        else (if is_boilerplate (strip text)
            then exclude boilerplate
            else judge cfg (segment_stats text start end)))
    else ok

-- A segment, with `none` for an id that is no number.
pub record Segment : Type 0 where
  pub id : Option ℕ
  pub text : Chars
  pub start : ℕ
  pub end : ℕ

pub record Parts : Type 0 where
  pub kept : List Segment
  pub low : Dict ℕ Reason
  pub excluded : Dict ℕ Reason

abbrev pub keep : Segment → Parts → Parts
keep s p = record p { kept = p.kept ++ s ∷ [] }

abbrev pub place : Segment → ℕ → Verdict → Parts → Parts
place s sid (exclude r) p = record p { excluded = put sid r p.excluded }
place s sid (low_conf r) p = keep s (record p { low = put sid r p.low })
place s sid ok p = keep s p

-- The body of the loop.
abbrev pub part : Config → Segment → Option ℕ → Parts → Parts
part cfg s none p = keep s p
part cfg s (some sid) p = place s sid (classify cfg s.text s.start s.end) p

abbrev pub parts : Config → List Segment → Parts → Parts
parts cfg [] p = p
parts cfg (s ∷ ss) p = parts cfg ss (part cfg s s.id p)

-- `partition`.
unfoldable pub partition : Config → List Segment → Parts
partition cfg ss = parts cfg ss (record { kept = []; low = []; excluded = [] })
