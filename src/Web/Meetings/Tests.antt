-- ===== src/Web/Meetings/Tests.antt =====
-- The handlers of meetings at concrete requests.
use lb_note.Base.{◌≡◌, refl, subst, none, some, true, List, [], ◌∷◌, string_Eq}
use lb_note.Base.Dict.{get?, put, remove, update}
use lb_note.Web.App.Reply.{reply}
use lb_note.Web.Store.Json.{str, time, raw, Text, Meeting}
use lb_note.Web.Store.Etag.{ok, IsoText, next_etag, next_after}
use lb_note.Web.Store.Tables.{Tables, row_of, persist, insert_row, select_meeting}
use lb_note.Web.Store.Meetings.{Validator, update_if_match}
use lb_note.Web.Store.Valid.{IsValid}
use lb_note.Web.Store.Writes.{ok_injective}
use lb_note.Web.Meetings.Handlers.{Contract, owned_or_404, patch_meeting}
use lb_note.Web.Meetings.Isolation.{
  Request, patches, reverts, deletes, answer, answer_all, meetings_isolated,
}

abbrev iso : IsoText
iso = record { after = λ n s. true; bump = λ s. none }

abbrev pass : Validator
pass cur patch = ok patch

pass_fixed : (cur p q : Meeting) → get? "id" p ≡ none → pass cur p ≡ ok q → get? "id" q ≡ none
pass_fixed cur p q n e = subst (λ x. get? "id" x ≡ none) (ok_injective e) n

abbrev as_sent : Contract
as_sent = record { ensure_ids = λ j. j; merge_edited = λ m s i. (s, i) }

abbrev by_kim : Meeting
by_kim = ("id", str (raw "m1")) ∷ ("ownerId", str (raw "kim")) ∷ ("updatedAt", str (time 10)) ∷ []

abbrev by_lee : Meeting
by_lee = ("id", str (raw "m2")) ∷ ("ownerId", str (raw "lee")) ∷ ("updatedAt", str (time 12)) ∷ []

abbrev both : Tables
both = record {
  meetings = (raw "m1", row_of by_kim) ∷ (raw "m2", row_of by_lee) ∷ [];
  keyless = [];
  backups = [];
  next_id = 1;
}

both-IsValid : IsValid both
unfolding get?
both-IsValid = record {
  ordered = tt;
  below = tt;
  one_original = λ mid. tt;
  synced = ((refl, refl), ((refl, refl), tt));
  loose = tt;
}

abbrev attempts : List (Text × Request)
attempts =
    (raw "lee", deletes "m1")
    ∷ (raw "lee", patches 20 (reply none) "m1" (("title", str (raw "mine")) ∷ []))
    ∷ (raw "lee", patches 21 (reply none) "m2" (("title", str (raw "mine")) ∷ []))
    ∷ (raw "park", reverts 22 (reply none) "m1")
    ∷ (raw "lee", deletes "m2")
    ∷ []

meetings_isolated_example :
    select_meeting "m1" (answer_all iso pass as_sent attempts both) ≡ some by_kim
unfolding get?
meetings_isolated_example =
    meetings_isolated iso pass as_sent pass_fixed "m1" by_kim attempts both both-IsValid
      ((tt, refl), ((refl, refl), ((refl, refl), ((tt, refl), ((tt, refl), tt))))) refl

-- A patch of one's own meeting that names the id of another's writes over that one.
abbrev grab : Meeting
grab = ("id", str (raw "m1")) ∷ []

grabbed :
    select_meeting "m1"
      (answer_all iso pass as_sent ((raw "lee", patches 20 (reply none) "m2" grab) ∷ []) both)
    ≡ some
        (("id", str (raw "m1")) ∷ ("ownerId", str (raw "lee")) ∷ ("updatedAt", str (time 20)) ∷ [])
unfolding get? put remove update answer answer_all patch_meeting owned_or_404 update_if_match
    next_etag next_after persist insert_row
grabbed = refl
