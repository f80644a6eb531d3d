-- ===== src/Web/Contract/Ids.antt =====
-- The ids of action items, `ensure_action_item_ids` of src/postprocess/web_contract.py. The ids that uuid4
-- draws are an argument.
use lb_note.Base.{ℕ, suc, not, ◌&&◌, List, [], ◌∷◌, if◌then◌else◌, nat_Eq, string_Eq, is_in}
use lb_note.Base.Dict.{put}
use lb_note.Web.Store.Json.{
  Json, null, bool, num, str, arr, obj, Text, text_Eq, truthy, Meeting, get,
}

-- An item is a dict, or another value that passes as it is.
pub data Item : Type 0 where
  entry : Meeting → Item
  other : Json → Item

abbrev pub chosen : Text → List Text → Json → Text
chosen fresh seen (str t) = if truthy (str t) && not (is_in t seen) then t else fresh
chosen fresh seen null = fresh
chosen fresh seen (bool b) = fresh
chosen fresh seen (num n) = fresh
chosen fresh seen (arr xs) = fresh
chosen fresh seen (obj fs) = fresh

module _ (fresh : ℕ → Text) where
  abbrev pub with_ids : ℕ → List Text → List Item → List Item
  with_ids n seen [] = []
  with_ids n seen (other j ∷ rest) = other j ∷ with_ids n seen rest
  with_ids n seen (entry d ∷ rest) =
      let i = chosen (fresh n) seen (get "item_id" d) in
      entry (put "item_id" (str i) d) ∷ with_ids (suc n) (i ∷ seen) rest

  -- `ensure_action_item_ids`.
  unfoldable pub ensure_action_item_ids : List Item → List Item
  ensure_action_item_ids items = with_ids 0 [] items
