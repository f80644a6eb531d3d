-- ===== src/Web/Contract/Transcript.antt =====
-- The edit of a transcript, `validate_transcript_edit` of src/postprocess/web_contract.py. An entry is a
-- dict; what `str` prints of a number, a list or a dict is an argument.
use lb_note.Base.{
  Option, none, some, Bool, true, false, not, ◌||◌, List, [], ◌∷◌, String, if◌then◌else◌, ◌==◌,
  nat_Eq, string_Eq, length,
}
use lb_note.Base.Dict.{get_or, put, remove}
use lb_note.Web.Store.Json.{
  Json, null, bool, num, str, arr, obj, Text, raw, text_Eq, truthy, Meeting, get,
}

abbrev pub Entry : Type 0
Entry = Meeting

module _ (print : Json → Text) where
  -- `str(v)`.
  abbrev pub py_str : Json → Text
  py_str (str t) = t
  py_str null = raw "None"
  py_str (bool true) = raw "True"
  py_str (bool false) = raw "False"
  py_str (num n) = print (num n)
  py_str (arr xs) = print (arr xs)
  py_str (obj fs) = print (obj fs)

  -- `str(d.get(k, ""))`.
  abbrev pub text_at : String → Entry → Text
  text_at k d = py_str (get_or k (str (raw "")) d)

  abbrev pub same_at : String → Entry → Entry → Bool
  same_at k old new = text_at k new == text_at k old

  -- Whether the text is corrected, now or before.
  abbrev pub is_corrected : Entry → Entry → Bool
  is_corrected old new = not (same_at "text" old new) || truthy (get "edited" old)

  abbrev pub flag : String → Bool → Entry → Entry
  flag k b d = if b then put k (bool true) d else remove k d

  -- An entry of the answer: the stored one, with the new text and the two flags.
  abbrev pub edited_entry : Entry → Entry → Entry
  edited_entry old new =
      flag "hidden" (truthy (get "hidden" new))
        (flag "edited" (is_corrected old new) (put "text" (str (text_at "text" new)) old))

  abbrev pub and_then : Option (List Entry) → Entry → Option (List Entry)
  and_then none e = none
  and_then (some es) e = some (e ∷ es)

  abbrev pub edit_all : List Entry → List Entry → Option (List Entry)
  edit_all [] new = some []
  edit_all (o ∷ os) [] = some []
  edit_all (o ∷ os) (n ∷ ns) =
      let rest = edit_all os ns in
      if not (same_at "timestamp" o n)
      then none
      else (if not (same_at "speakerId" o n) then none else and_then rest (edited_entry o n))

  -- `validate_transcript_edit`, with `none` for a `TranscriptStructureError`.
  unfoldable pub validate_transcript_edit : List Entry → List Entry → Option (List Entry)
  validate_transcript_edit stored incoming =
      if length incoming == length stored then edit_all stored incoming else none
