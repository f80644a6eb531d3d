-- ===== src/Web/Contract/Edits.antt =====
-- What an edit of a transcript may change (src/postprocess/web_contract.py).
use lb_note.Base.{
  ℕ, suc, ◌≡◌, ◌≢◌, refl, ◌∙◌, Option, none, some, Bool, true, false, ◌&&◌, ◌||◌, not, List, [],
  ◌∷◌, String, arith, ◌==◌, ne→beq, nat_Eq, string_Eq, length, Bool-cases, inl, inr, ==_refl,
}
use lb_note.Base.Dict.{get?, put, get?-put, get?-remove, get?-put_self}
use lb_note.Web.Store.Json.{Json, bool, str, Text, text_Eq, truthy, get}
use lb_note.Web.Contract.Transcript.{
  Entry, text_at, same_at, is_corrected, flag, edited_entry, edit_all, validate_transcript_edit,
}

all_three : (a b c : Bool) → (a && b && c) ≡ true → (a ≡ true) × (b ≡ true) × (c ≡ true)
all_three a b c h = (ground arith, ground arith, ground arith)

not_all : (a b c : Bool) → a ≡ true → b ≡ true → (a && b && c) ≡ false → c ≡ false
not_all a b c h k l = ground arith

lower : (m n : ℕ) → (suc m == suc n) ≡ true → (m == n) ≡ true
lower m n h = ground arith

abbrev flag_value : Bool → Option Json
flag_value true = some (bool true)
flag_value false = none

-- The mark of an entry, from whether its text is the same and whether it was marked before.
abbrev pub mark : Bool → Bool → Option Json
mark true false = none
mark true true = some (bool true)
mark false b = some (bool true)

corrected_mark : (same b : Bool) → flag_value (not same || b) ≡ mark same b
corrected_mark true false = refl
corrected_mark true true = refl
corrected_mark false b = refl

module _ (print : Json → Text) where
  -- The entries are as many, and pair by pair of one time and speaker.
  abbrev pub permitted : List Entry → List Entry → Bool
  permitted [] [] = true
  permitted [] (n ∷ ns) = false
  permitted (o ∷ os) [] = false
  permitted (o ∷ os) (n ∷ ns) =
      (text_at print "timestamp" n == text_at print "timestamp" o)
      && (text_at print "speakerId" n == text_at print "speakerId" o)
      && permitted os ns

  -- An entry of the answer against the stored and the sent one.
  abbrev pub EditOf : Entry → Entry → Entry → Type 0
  EditOf o n e =
      ((k : String) → k ≢ "text" → k ≢ "edited" → k ≢ "hidden" → get? k e ≡ get? k o)
      × (get? "text" e ≡ some (str (text_at print "text" n)))
      × (get? "edited" e
          ≡ mark (text_at print "text" n == text_at print "text" o) (truthy (get "edited" o)))
      × (get? "hidden" e ≡ flag_value (truthy (get "hidden" n)))

  abbrev pub EditsOf : List Entry → List Entry → List Entry → Type 0
  EditsOf [] ns es = es ≡ []
  EditsOf (o ∷ os) [] es = ⊥
  EditsOf (o ∷ os) (n ∷ ns) [] = ⊥
  EditsOf (o ∷ os) (n ∷ ns) (e ∷ es) = EditOf o n e × EditsOf os ns es

  flag_self : (k : String) (b : Bool) (d : Entry) → get? k (flag print k b d) ≡ flag_value b
  flag_self k true d = get?-put_self k (bool true) d
  flag_self k false d = simp (get?-remove, ==_refl k)

  flag_other :
      (j k : String) (b : Bool) (d : Entry)
      → (k == j) ≡ false
      → get? j (flag print k b d) ≡ get? j d
  flag_other j k true d h = rw (get?-put j k (bool true) d, h) refl
  flag_other j k false d h = rw (get?-remove j k d, h) refl

  edited_entry-EditOf : (o n : Entry) → EditOf o n (edited_entry print o n)
  edited_entry-EditOf o n =
      let base = put "text" (str (text_at print "text" n)) o in
      let b = is_corrected print o n in
      let h = truthy (get "hidden" n) in
      (
        λ k t e d.
            flag_other k "hidden" h (flag print "edited" b base) (ne→beq k "hidden" d)
            ∙ flag_other k "edited" b base (ne→beq k "edited" e)
            ∙ rw (get?-put k "text" (str (text_at print "text" n)) o, ne→beq k "text" t) refl,
        flag_other "text" "hidden" h (flag print "edited" b base) refl
            ∙ flag_other "text" "edited" b base refl
            ∙ get?-put_self "text" (str (text_at print "text" n)) o,
        flag_other "edited" "hidden" h (flag print "edited" b base) refl
            ∙ flag_self "edited" b base
            ∙ corrected_mark (text_at print "text" n == text_at print "text" o)
                (truthy (get "edited" o)),
        flag_self "hidden" h (flag print "edited" b base),
      )

  edit_all-EditsOf :
      (stored incoming : List Entry)
      → permitted stored incoming ≡ true
      → (out : List Entry) × (edit_all print stored incoming ≡ some out)
        × EditsOf stored incoming out
  edit_all-EditsOf [] [] h = ([], refl, refl)
  edit_all-EditsOf [] (n ∷ ns) h = cc h
  edit_all-EditsOf (o ∷ os) [] h = cc h
  edit_all-EditsOf (o ∷ os) (n ∷ ns) h =
      let (t, s, r) =
        all_three (same_at print "timestamp" o n) (same_at print "speakerId" o n) (permitted os ns)
          h in
      let (es, e, k) = edit_all-EditsOf os ns r in
      (edited_entry print o n ∷ es, rw (t, s, e) refl, (edited_entry-EditOf o n, k))

  permitted-length :
      (stored incoming : List Entry)
      → permitted stored incoming ≡ true
      → (length incoming == length stored) ≡ true
  permitted-length [] [] h = refl
  permitted-length [] (n ∷ ns) h = cc h
  permitted-length (o ∷ os) [] h = cc h
  permitted-length (o ∷ os) (n ∷ ns) h =
      let (t, s, r) =
        all_three (same_at print "timestamp" o n) (same_at print "speakerId" o n) (permitted os ns)
          h in
      let e = permitted-length os ns r in ground (arith, e)

  edit_all-none :
      (stored incoming : List Entry)
      → (length incoming == length stored) ≡ true
      → permitted stored incoming ≡ false
      → edit_all print stored incoming ≡ none
  edit_all-none [] [] l h = cc h
  edit_all-none [] (n ∷ ns) l h = ground (arith, l)
  edit_all-none (o ∷ os) [] l h = ground (arith, l)
  edit_all-none (o ∷ os) (n ∷ ns) l h = elim (Bool-cases (same_at print "timestamp" o n)) [
    | inr t ↦ rw t refl
    | inl t ↦ elim (Bool-cases (same_at print "speakerId" o n)) [
      | inr s ↦ rw (t, s) refl
      | inl s ↦
          rw
            (
              t,
              s,
              edit_all-none os ns (lower (length ns) (length os) l) (
                  not_all (same_at print "timestamp" o n) (same_at print "speakerId" o n)
                    (permitted os ns) t s h),
            )
            refl
    ]
  ]

  -- An edit of a transcript is refused exactly where the entries sent are not as many as those stored, or
  -- one of them has another time or speaker. Otherwise each entry of the answer is the stored one in every
  -- key but three: its text is the one sent, it is hidden exactly where that is sent, and it is marked as
  -- edited exactly where the text is another or the mark was there, whatever mark is sent.
  pub transcript_edit :
      (stored incoming : List Entry)
      → (permitted stored incoming ≡ false → validate_transcript_edit print stored incoming ≡ none)
        × (permitted stored incoming ≡ true
            → (out : List Entry) × (validate_transcript_edit print stored incoming ≡ some out)
              × EditsOf stored incoming out)
  unfolding validate_transcript_edit
  transcript_edit stored incoming = (
    λ h. elim (Bool-cases (length incoming == length stored)) [
      | inl y ↦ rw y (edit_all-none stored incoming y h)
      | inr n ↦ rw n refl
    ],
    λ h.
        (let (out, e, k) = edit_all-EditsOf stored incoming h in
          (out, rw (permitted-length stored incoming h, e) refl, k)),
  )
