-- ===== src/Web/Store/Json.antt =====
-- The JSON values of a meeting (the `data` column of src/web/store.py), as `json.loads` returns
-- them and `json.dumps` writes them.
use lb_note.Base.{
  ℕ, ◌≡◌, ◌↔◌, Bool, true, false, not, ◌||◌, String, arith, ◌==◌, Eq, nat_Eq, string_Eq, nat_eq_iff,
  ==_iff,
}
use lb_note.Base.Dict.{Dict, get_or}

-- A Python string. `time n` is the text that `isoformat(timespec="microseconds")` prints for the
-- UTC instant of n microseconds: such texts have one width, so they compare as their instants.
-- `raw` is any other text.
pub data Text : Type 0 where
  time : ℕ → Text
  raw : String → Text

abbrev pub text_eq : Text → Text → Bool
text_eq (time m) (time n) = m == n
text_eq (raw s) (raw t) = s == t
text_eq (time m) (raw t) = false
text_eq (raw s) (time n) = false

pub text_eq_iff : (s t : Text) → (text_eq s t ≡ true) ↔ (s ≡ t)
text_eq_iff (time m) (time n) = ground (arith, nat_eq_iff m n)
text_eq_iff (raw s) (raw t) = ground (arith, ==_iff s t)
text_eq_iff (time m) (raw t) = ground arith
text_eq_iff (raw s) (time n) = ground arith

instance abbrev pub text_Eq : Eq Text
text_Eq = record { same = text_eq; same_iff = text_eq_iff }

mutual
  -- A number is kept as the literal that JSON prints: the store passes numbers on unread.
  pub data Json : Type 0 where
    null : Json
    bool : Bool → Json
    num : String → Json
    str : Text → Json
    arr : Items → Json
    obj : Fields → Json

  pub data Items : Type 0 where
    nil : Items
    cons : Json → Items → Items

  pub data Fields : Type 0 where
    end : Fields
    field : String → Json → Fields → Fields

-- Python's truth of a value.
abbrev pub truthy : Json → Bool
truthy null = false
truthy (bool b) = b
truthy (num lit) = not (lit == "0" || (lit == "0.0" || lit == "-0.0"))
truthy (str (time n)) = true
truthy (str (raw s)) = not (s == "")
truthy (arr nil) = false
truthy (arr (cons x xs)) = true
truthy (obj end) = false
truthy (obj (field k v fs)) = true

-- A meeting is a dict of JSON values.
abbrev pub Meeting : Type 0
Meeting = Dict String Json

-- `m.get(k)`.
abbrev pub get : String → Meeting → Json
get k m = get_or k null m
