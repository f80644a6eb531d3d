-- ===== src/Web/Auth/Glossary.antt =====
-- The glossary of `UserStore` (src/web/auth.py): a term under its scope, its owner and the text that it
-- replaces, which are unique together.
use lb_note.Base.{
  ℕ, Option, none, some, Bool, not, ◌||◌, ◌&&◌, List, [], ◌∷◌, if◌then◌else◌, ltb, leb, ◌==◌,
  nat_Eq, list_Eq, pair_Eq, select, length, map, is_in,
}
use lb_note.Base.Dict.{Dict, get?, put, remove, contains}
use lb_note.Base.Chars.{Chars, strip, is_empty}
use lb_note.Web.Auth.Secrets.{Outcome, returns, raises, value_error, and_then}
use lb_note.Web.Auth.Admin.{before}

abbrev pub max_terms : ℕ
max_terms = 200

abbrev pub max_len : ℕ
max_len = 40

-- "global" and "user".
abbrev pub global_scope : Chars
global_scope = 103 ∷ 108 ∷ 111 ∷ 98 ∷ 97 ∷ 108 ∷ []

abbrev pub user_scope : Chars
user_scope = 117 ∷ 115 ∷ 101 ∷ 114 ∷ []

-- Scope and owner; with the source, the key of a row.
abbrev pub Owner : Type 0
Owner = Chars × Chars

abbrev pub Slot : Type 0
Slot = Owner × Chars

pub record Term : Type 0 where
  pub target : Chars
  pub created_by : Option Chars
  pub created_at : ℕ
  pub updated_at : ℕ

abbrev pub Terms : Type 0
Terms = Dict Slot Term

-- `_norm_scope`.
unfoldable pub norm_scope : Chars → Chars → Outcome Owner
norm_scope scope owner =
    if strip scope == global_scope
    then returns (global_scope, [])
    else (if strip scope == user_scope
        then (if is_empty (strip owner)
            then raises value_error
            else returns (user_scope, strip owner))
        else raises value_error)

abbrev pub under : Owner → Slot × Term → Bool
under who ((w, source), t) = w == who

-- The rows of one scope and owner.
abbrev pub rows : Owner → Terms → Terms
rows who d = select (under who) d

abbrev pub source_of : Slot × Term → Chars
source_of ((w, source), t) = source

abbrev pub sources : Owner → Terms → List Chars
sources who d = map source_of (rows who d)

abbrev pub written : ℕ → Chars → Option Chars → Option Term → Term
written now target by none = record {
  target = target;
  created_by = by;
  created_at = now;
  updated_at = now;
}
written now target by (some t) = record t { target = target; updated_at = now }

abbrev pub too_long : Chars → Bool
too_long s = ltb max_len (length s)

-- The terms are counted in `seen`, under the lock of the listing, and the row is written in `d`, under a
-- second one.
abbrev pub upsert_under : ℕ → Chars → Chars → Option Chars → Terms → Terms → Owner → Outcome Terms
upsert_under now source target by seen d who =
    if is_empty source || is_empty target
    then raises value_error
    else (if too_long source || too_long target
        then raises value_error
        else (if not (is_in source (sources who seen)) && leb max_terms (length (sources who seen))
            then raises value_error
            else returns (put (who, source) (written now target by (get? (who, source) d)) d)))

-- `upsert_glossary_term`.
unfoldable pub upsert_glossary_term :
    ℕ → Chars → Chars → Chars → Chars → Option Chars → Terms → Terms → Outcome Terms
upsert_glossary_term now scope owner source target by seen d =
    and_then (norm_scope scope owner) (upsert_under now (strip source) (strip target) by seen d)

-- `delete_glossary_term`.
unfoldable pub delete_glossary_term : Chars → Chars → Chars → Terms → Outcome (Bool × Terms)
delete_glossary_term scope owner source d =
    and_then (norm_scope scope owner)
      (λ who. returns (contains (who, strip source) d, remove (who, strip source) d))

-- The latest change first, and then by the source.
abbrev pub first_of : Slot × Term → Slot × Term → Bool
first_of (j, t) (k, u) =
    ltb u.updated_at t.updated_at
    || ((t.updated_at == u.updated_at) && not (before (source_of (k, u)) (source_of (j, t))))

abbrev pub place : Slot × Term → Terms → Terms
place x [] = x ∷ []
place x (y ∷ ys) = if first_of x y then x ∷ y ∷ ys else y ∷ place x ys

abbrev pub placed : Terms → Terms
placed [] = []
placed (x ∷ xs) = place x (placed xs)

-- `list_glossary_terms`.
unfoldable pub list_glossary_terms : Chars → Chars → Terms → Outcome Terms
list_glossary_terms scope owner d =
    and_then (norm_scope scope owner) (λ who. returns (placed (rows who d)))

-- A change that a user or an administrator asks for; one that raises leaves the table. In a list of them
-- each is over before the next begins.
pub data Edit : Type 0 where
  upserts : (now : ℕ) (scope owner source target : Chars) (by : Option Chars) → Edit
  deletes : (scope owner source : Chars) → Edit

abbrev pub after : Outcome Terms → Terms → Terms
after (returns d') d = d'
after (raises e) d = d

abbrev pub after_delete : Outcome (Bool × Terms) → Terms → Terms
after_delete (returns r) d = r.1
after_delete (raises e) d = d

unfoldable pub edited : List Edit → Terms → Terms
edited [] d = d
edited (upserts now scope owner source target by ∷ es) d =
    edited es (after (upsert_glossary_term now scope owner source target by d d) d)
edited (deletes scope owner source ∷ es) d =
    edited es (after_delete (delete_glossary_term scope owner source d) d)
