-- ===== src/Web/Notices/Newest.antt =====
-- The notice that the bot reads: `latest` of `NoticeStore` (src/web/store.py).
use lb_note.Base.{
  ℕ, ◌+◌, ◌≤◌, ◌<◌, ◌≡◌, refl, sym, ◌∙◌, Option, none, some, true, false, List, [], ◌∷◌, ◌++◌,
  String, arith, All, All-append, All-map, All-select, select-append, true≢false, ==_refl, ne→beq,
  ◌==◌, nat_Eq, select, Bool-cases, inl, inr, ◌⊎◌, ltb,
}
use lb_note.Web.Notices.{Notice, Table, newest, first, later, latest, add}

abbrev pub In : Notice → List Notice → Type 0
In b [] = ⊥
In b (x ∷ xs) = (x ≡ b) ⊎ In b xs

-- The result of `latest`, described without it.
abbrev pub IsLatest : Option Notice → List Notice → Type 0
IsLatest none rows = All (λ (n : Notice). n.active ≡ false) rows
IsLatest (some b) rows =
    In b rows × (b.active ≡ true) × All (λ (n : Notice). n.active ≡ true → n.id ≤ b.id) rows

IsLatest-cons :
    (n : Notice) (o : Option Notice) (rows : List Notice)
    → n.active ≡ true
    → IsLatest o rows
    → IsLatest (later n o) (n ∷ rows)
IsLatest-cons n none rows y h = (
  inl refl,
  y,
  (
    λ _. omega arith,
    All-map (λ (m : Notice). m.active ≡ false) (λ (m : Notice). m.active ≡ true → m.id ≤ n.id) rows
        (λ m f t. absurd (true≢false (sym t ∙ f))) h,
  ),
)
IsLatest-cons n (some b) rows y (i, a, l) = elim (Bool-cases (ltb b.id n.id)) [
  | inl lt ↦ rw lt (
    inl refl,
    y,
    (
      λ _. omega arith,
      All-map (λ (m : Notice). m.active ≡ true → m.id ≤ b.id)
          (λ (m : Notice). m.active ≡ true → m.id ≤ n.id) rows
          (λ m f t. let q = f t in ground arith) l,
    ),
  )
  | inr ge ↦ rw ge (inr i, a, (λ _. ground arith, l))
]

IsLatest-skip :
    (n : Notice) (o : Option Notice) (rows : List Notice)
    → n.active ≡ false
    → IsLatest o rows
    → IsLatest o (n ∷ rows)
IsLatest-skip n none rows f h = (f, h)
IsLatest-skip n (some b) rows f (i, a, l) = (inr i, a, (λ t. absurd (true≢false (sym t ∙ f)), l))

IsLatest-rows :
    (rows : List Notice) → IsLatest (newest (select (λ (n : Notice). n.active) rows)) rows
unfolding newest
IsLatest-rows [] = tt
IsLatest-rows (n ∷ rows) = elim (Bool-cases n.active) [
  | inl y ↦ simp y (
      IsLatest-cons n (newest (select (λ (m : Notice). m.active) rows)) rows y (IsLatest-rows rows))
  | inr f ↦ simp f (
      IsLatest-skip n (newest (select (λ (m : Notice). m.active) rows)) rows f (IsLatest-rows rows))
]

-- `latest` returns an active notice of the table that no other active notice is newer than, and
-- returns none only where no notice is active.
pub latest_newest : (t : Table) → IsLatest (latest t) t.rows
unfolding latest
latest_newest t = IsLatest-rows t.rows

-- Every id was given out before the next.
abbrev pub IsNumbered : Table → Type 0
IsNumbered t = All (λ (n : Notice). n.id < t.next_id) t.rows

newest-snoc :
    (rows : List Notice) (b : Notice)
    → All (λ (n : Notice). n.id < b.id) rows
    → newest (rows ++ b ∷ []) ≡ some b
unfolding newest
newest-snoc [] b h = refl
newest-snoc (n ∷ ns) b h = rw (newest-snoc ns b h.1) (later_lt n b h.0)
  where
    later_lt : (x y : Notice) → x.id < y.id → later x (some y) ≡ some y
    later_lt x y l = ground arith

first-snoc :
    (rows : List Notice) (b : Notice)
    → All (λ (n : Notice). n.id < b.id) rows
    → first (select (λ (n : Notice). n.id == b.id) (rows ++ b ∷ [])) ≡ some b
first-snoc [] b h = rw (==_refl b.id)
first-snoc (n ∷ ns) b h = rw (ne→beq b.id n.id (λ e. omega arith)) (first-snoc ns b h.1)

-- A notice that is added is what `add` returns and what the bot reads next, and ids stay below
-- the next one.
pub add-latest :
    (now : ℕ) (body : String) (title created_by : Option String) (t : Table)
    → IsNumbered t
    → (n : Notice) × ((add now body title created_by t).0 ≡ some n)
      × (latest (add now body title created_by t).1 ≡ some n)
      × (n.body ≡ body)
      × (n.id ≡ t.next_id)
      × IsNumbered (add now body title created_by t).1
unfolding add latest
add-latest now body title created_by t h =
    let n : Notice = record {
      id = t.next_id;
      title = title;
      body = body;
      active = true;
      created_by = created_by;
      created_at = now;
      updated_at = now;
    } in
    (
      n,
      first-snoc t.rows n h,
      rw (select-append (λ (m : Notice). m.active) t.rows (n ∷ [])) (
          newest-snoc (select (λ (m : Notice). m.active) t.rows) n
            (All-select (λ (m : Notice). m.id < t.next_id) (λ (m : Notice). m.active) t.rows h)),
      refl,
      refl,
      All-append (λ (m : Notice). m.id < t.next_id + 1) t.rows (n ∷ [])
          (All-map (λ (m : Notice). m.id < t.next_id) _ t.rows (λ m l. omega arith) h)
          (omega arith, tt),
    )
