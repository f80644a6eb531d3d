-- ===== src/Stt/Scoring/Tests.antt =====
-- Runs of src/scoring.py on short texts, and its theorems at concrete inputs.
use lb_note.Base.{
  length, max, ◌≢◌, ℕ, ◌≡◌, ◌≤◌, ◌↔◌, refl, some, List, [], ◌∷◌, String, string_Eq, nat_Eq,
}
use lb_note.Stt.Scoring.Rows.{levenshtein}
use lb_note.Stt.Scoring.Scripts.{Script, levenshtein_cheapest}
use lb_note.Stt.Scoring.Rates.{wer, cer, wer_zero}

abbrev said : List String
said = "we" ∷ "ship" ∷ "it" ∷ "on" ∷ "friday" ∷ []

abbrev heard : List String
heard = "we" ∷ "shipped" ∷ "on" ∷ "a" ∷ "friday" ∷ []

three_edits : levenshtein said heard ≡ some 3
unfolding levenshtein
three_edits = refl

word_rate : wer said heard ≡ some (3, 5)
unfolding wer levenshtein
word_rate = refl

-- The spaces do not count.
spaces : cer (65 ∷ 32 ∷ 66 ∷ []) (65 ∷ 66 ∷ 32 ∷ []) ≡ some (0, 2)
unfolding cer levenshtein
spaces = refl

levenshtein_cheapest_example :
    (d : ℕ) × (levenshtein said heard ≡ some d)
    × Script said heard d
    × ((n : ℕ) → Script said heard n → d ≤ n)
levenshtein_cheapest_example = levenshtein_cheapest said heard

wer_zero_example :
    (d n : ℕ) × (wer said heard ≡ some (d, n))
    × (n ≡ max 1 (length said))
    × ((d ≡ 0) ↔ (said ≡ heard))
    × (said ≢ [] → levenshtein said heard ≡ some d)
wer_zero_example = wer_zero said heard
