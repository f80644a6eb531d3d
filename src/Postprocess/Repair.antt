-- ===== src/Postprocess/Repair.antt =====
-- What `repair_or_degrade` (src/postprocess/validate.py) lets through.
use lb_note.Base.{◌≡◌, ◌⊎◌, some, [], nat_Eq, list_Eq}
use lb_note.Base.Chars.{Chars}
use lb_note.Postprocess.Validate.{Segment, Gate, validate_segment, edit_ratio, flag_review}

-- What comes out: a segment that passes the gate with its ratio of edits, or the original text under
-- a flag for review.
abbrev pub IsRepaired : Gate → Segment → Type 0
IsRepaired g r =
    ((validate_segment g r ≡ []) × (r.ratio ≡ edit_ratio r.original r.cleaned))
    ⊎ ((r.cleaned ≡ r.original) × (r.flag ≡ some flag_review) × (r.edits ≡ []))
