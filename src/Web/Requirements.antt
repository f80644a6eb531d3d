-- ===== src/Web/Requirements.antt =====
-- `RequirementStore` of src/web/store.py: the table in the order of insertion, so that the ids rise.
use lb_note.Base.{
  ℕ, ◌+◌, Option, none, some, List, [], ◌∷◌, ◌++◌, String, ◌==◌, string_Eq, select, reverse,
}

pub record Requirement : Type 0 where
  pub id : ℕ
  pub source : String
  pub reporter : Option String
  pub text : String
  pub status : String
  pub created_at : ℕ

pub record Table : Type 0 where
  pub rows : List Requirement
  pub next_id : ℕ

abbrev pub opened : ℕ → String → String → Option String → Table → Requirement
opened now text source reporter t = record {
  id = t.next_id;
  source = source;
  reporter = reporter;
  text = text;
  status = "open";
  created_at = now;
}

-- `add`.
unfoldable pub add : ℕ → String → String → Option String → Table → Requirement × Table
add now text source reporter t = (
  opened now text source reporter t,
  record { rows = t.rows ++ opened now text source reporter t ∷ []; next_id = t.next_id + 1 },
)

abbrev pub with_status : Option String → List Requirement → List Requirement
with_status none rows = rows
with_status (some s) rows = select (λ r. r.status == s) rows

-- `list`: the latest first.
unfoldable pub list : Option String → Table → List Requirement
list status t = reverse (with_status status t.rows)
