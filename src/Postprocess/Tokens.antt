-- ===== src/Postprocess/Tokens.antt =====
-- Tokens and substrings of texts, as src/postprocess/validate.py and homophone.py read them.
use lb_note.Base.{
  ℕ, Bool, true, not, ◌&&◌, ◌||◌, List, [], ◌∷◌, if◌then◌else◌, leb, ◌==◌, nat_Eq, list_Eq,
}
use lb_note.Base.Chars.{begins, Chars, is_empty}

abbrev pub digit : ℕ → Bool
digit c = leb 48 c && leb c 57

-- The three ranges of `_TOKEN_RE`, and 0 for what stands between tokens.
abbrev pub kind : ℕ → ℕ
kind c =
    if digit c
    then 1
    else (if (leb 65 c && leb c 90) || (leb 97 c && leb c 122)
        then 2
        else (if leb 44032 c && leb c 55203 then 3 else 0))

abbrev pub onto_first : ℕ → List Chars → List Chars
onto_first c [] = (c ∷ []) ∷ []
onto_first c (t ∷ ts) = (c ∷ t) ∷ ts

-- The kind of the first character, and the tokens.
abbrev pub scan : Chars → ℕ × List Chars
scan [] = (0, [])
scan (c ∷ s) =
    let (k, ts) = scan s in
    (kind c, (if kind c == 0 then ts else (if kind c == k then onto_first c ts else (c ∷ []) ∷ ts)))

-- `_tokens`.
unfoldable pub tokens : Chars → List Chars
tokens s = (scan s).1

abbrev pub all_digits : Chars → Bool
all_digits [] = true
all_digits (c ∷ s) = digit c && all_digits s

-- `str.isdigit` on a token.
abbrev pub is_number : Chars → Bool
is_number t = not (is_empty t) && all_digits t

-- `t in s`.
abbrev pub occurs : Chars → Chars → Bool
occurs t [] = is_empty t
occurs t (c ∷ s) = begins t (c ∷ s) || occurs t s
