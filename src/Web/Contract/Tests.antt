-- ===== src/Web/Contract/Tests.antt =====
-- The edit of a transcript at a concrete request.
use lb_note.Base.{◌≡◌, refl, some, true, List, [], ◌∷◌, string_Eq}
use lb_note.Base.Dict.{get?}
use lb_note.Web.Store.Json.{Json, bool, str, Text, raw, text_Eq}
use lb_note.Web.Contract.Transcript.{Entry, validate_transcript_edit}
use lb_note.Web.Contract.Edits.{EditsOf, transcript_edit}

abbrev nothing : Json → Text
nothing j = raw ""

abbrev said : List Entry
said =
    (("text", str (raw "helo"))
      ∷ ("timestamp", str (raw "00:03"))
      ∷ ("segmentId", str (raw "7"))
      ∷ [])
    ∷ (("text", str (raw "bye")) ∷ ("timestamp", str (raw "00:09")) ∷ [])
    ∷ []

-- The first text is corrected; the second entry is hidden, and its owner claims that it is edited.
abbrev sent : List Entry
sent =
    (("text", str (raw "hello")) ∷ ("timestamp", str (raw "00:03")) ∷ [])
    ∷ (("text", str (raw "bye"))
        ∷ ("timestamp", str (raw "00:09"))
        ∷ ("hidden", bool true)
        ∷ ("edited", bool true)
        ∷ [])
    ∷ []

transcript_edit_example :
    (out : List Entry) × (validate_transcript_edit nothing said sent ≡ some out)
    × EditsOf nothing said sent out
unfolding get?
transcript_edit_example = (transcript_edit nothing said sent).1 refl
