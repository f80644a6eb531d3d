-- ===== src/Postprocess/Tests.antt =====
-- Runs of src/postprocess/validate.py on short texts, and its theorem at a concrete input.
use lb_note.Base.{◌≡◌, refl, none, some, true, false, [], ◌∷◌}
use lb_note.Base.Chars.{Chars, strip}
use lb_note.Postprocess.Tokens.{tokens}
use lb_note.Postprocess.Validate.{
  Segment, content_dropped, Gate, content_preserved, glossary_terms_preserved,
  number_tokens_preserved, edit_ratio, validate_segment,
}
use lb_note.Base.{All, select, not}
use lb_note.Base.Dict.{put}
use lb_note.Postprocess.Language
use lb_note.Postprocess.Language.{Config, partition, classify, segment_stats}
use lb_note.Postprocess.Partition.{leaves_out, verdict, OnRecord, partition_complete}
use lb_note.Stt.Scoring.Rows.{levenshtein}

-- "12월 ok".
abbrev said : Chars
said = 49 ∷ 50 ∷ 50900 ∷ 32 ∷ 111 ∷ 107 ∷ []

-- "3월 ok".
abbrev wrong : Chars
wrong = 51 ∷ 50900 ∷ 32 ∷ 111 ∷ 107 ∷ []

said-tokens : tokens said ≡ (49 ∷ 50 ∷ []) ∷ (50900 ∷ []) ∷ (111 ∷ 107 ∷ []) ∷ []
unfolding tokens
said-tokens = refl

-- A digit that the whitelist explains may go.
homophone : number_tokens_preserved (53 ∷ 53456 ∷ []) (50724 ∷ 53456 ∷ []) ≡ (1, 1)
unfolding number_tokens_preserved tokens
homophone = refl

abbrev gate : Gate
gate = record {
  terms = (111 ∷ 107 ∷ []) ∷ [];
  lo = (0, 1);
  hi = (6, 10);
  require_edit = true;
  semantic_check = none;
}

abbrev segment : Segment
segment = record {
  id = 1;
  start = 0;
  end = 4;
  original = said;
  cleaned = wrong;
  edits = [];
  ratio = none;
  flag = none;
  redecoded = false;
}

-- The number is lost, so the original comes back.
number_lost : validate_segment gate segment ≡ content_dropped ∷ []
unfolding validate_segment content_preserved glossary_terms_preserved number_tokens_preserved
    edit_ratio tokens strip levenshtein
number_lost = refl

-- The thresholds of src/config.py.
abbrev config : Config
config = record {
  enabled = true;
  exclude_ratio = (15, 100);
  min_hangul = 5;
  min_chars = 40;
  max_cps = (12, 1);
  cps_ratio = (50, 100);
  low_conf_ratio = (45, 100);
  out_min_ratio = (20, 100);
}

-- "thank you all": no Korean, but too short to be left out.
abbrev foreign : Language.Segment
foreign = record {
  id = some 4;
  text = 116 ∷ 104 ∷ 97 ∷ 110 ∷ 107 ∷ 32 ∷ 121 ∷ 111 ∷ 117 ∷ 32 ∷ 97 ∷ 108 ∷ 108 ∷ [];
  start = 0;
  end = 1000;
}

abbrev korean : Language.Segment
korean = record { id = some 5; text = 50504 ∷ 45397 ∷ []; start = 1000; end = 2000 }

short_foreign_kept : partition config (foreign ∷ korean ∷ []) ≡ record {
  kept = foreign ∷ korean ∷ [];
  low = (4, Language.mostly_non_korean) ∷ [];
  excluded = [];
}
unfolding partition classify segment_stats strip put
short_foreign_kept = refl

partition_complete_example :
    ((partition config (foreign ∷ korean ∷ [])).kept
      ≡ select (λ s. not (leaves_out (verdict config s s.id))) (foreign ∷ korean ∷ []))
    × All
        (λ s. OnRecord (partition config (foreign ∷ korean ∷ [])) s.id (verdict config s s.id))
        (foreign ∷ korean ∷ [])
partition_complete_example = partition_complete config (foreign ∷ korean ∷ [])
