-- ===== src/Base/Chars.antt =====
-- Python texts as lists of code points, and the string methods that the program calls.
use Prim.Native.Nat.{ℕ}
use mathlib.Core.Bool.{Bool, true, false, ◌&&◌, ◌||◌}
use mathlib.Core.List.{List, [], ◌∷◌}
use lb_note.Base.Tests.{leb, nat_eq, if◌then◌else◌}

abbrev pub Chars : Type 0
Chars = List ℕ

-- `str.isspace` on one character.
abbrev pub is_space : ℕ → Bool
is_space c =
    (leb 9 c && leb c 13)
    || (leb 28 c && leb c 32)
    || nat_eq c 133
    || nat_eq c 160
    || nat_eq c 5760
    || (leb 8192 c && leb c 8202)
    || nat_eq c 8232
    || nat_eq c 8233
    || nat_eq c 8239
    || nat_eq c 8287
    || nat_eq c 12288

abbrev pub lstrip : Chars → Chars
lstrip [] = []
lstrip (c ∷ s) = if is_space c then lstrip s else c ∷ s

-- `str.rstrip`: a space stays where something else follows.
abbrev pub keep_before : ℕ → Chars → Chars
keep_before c [] = if is_space c then [] else c ∷ []
keep_before c (d ∷ s) = c ∷ d ∷ s

abbrev pub rstrip : Chars → Chars
rstrip [] = []
rstrip (c ∷ s) = keep_before c (rstrip s)

unfoldable pub strip : Chars → Chars
strip s = rstrip (lstrip s)

abbrev pub is_empty {ℓ} : {A : Type ℓ} → List A → Bool
is_empty [] = true
is_empty (x ∷ xs) = false

-- `s.startswith(t)`.
abbrev pub begins : Chars → Chars → Bool
begins [] s = true
begins (c ∷ t) [] = false
begins (c ∷ t) (d ∷ s) = nat_eq c d && begins t s
