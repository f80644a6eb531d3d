-- ===== src/Web/Notices/Edits.antt =====
-- `update` and `delete` of `NoticeStore` (src/web/store.py).
use lb_note.Base.{
  subst, ℕ, ◌≡◌, ◌≢◌, refl, sym, ap, ◌∙◌, Option, none, some, Bool, true, false, not, ◌&&◌, List,
  [], ◌∷◌, String, All-of, select, select-select, Bool-cases, inl, inr, ◌==◌, nat_Eq, ==_iff,
  ne→beq, if◌then◌else◌,
}
use lb_note.Web.Notices.{
  Notice, Table, first, get, is_none, given, given_title, assign, set_where, update, delete,
}

abbrev pub lookup : ℕ → List Notice → Option Notice
lookup id rows = first (select (λ n. n.id == id) rows)

abbrev pub apply_to : (Notice → Notice) → Option Notice → Option Notice
apply_to f none = none
apply_to f (some n) = some (f n)

lookup-set_where :
    (id : ℕ) (f : Notice → Notice) (rows : List Notice)
    → ((n : Notice) → (f n).id ≡ n.id)
    → lookup id (set_where id f rows) ≡ apply_to f (lookup id rows)
unfolding set_where
lookup-set_where id f [] k = refl
lookup-set_where id f (n ∷ ns) k = elim (Bool-cases (n.id == id)) [
  | inl y ↦ rw y (rw (k n) (rw y refl))
  | inr x ↦ rw x (rw x (lookup-set_where id f ns k))
]

lookup-set_where_ne :
    (id other : ℕ) (f : Notice → Notice) (rows : List Notice)
    → other ≢ id
    → ((n : Notice) → (f n).id ≡ n.id)
    → lookup other (set_where id f rows) ≡ lookup other rows
unfolding set_where
lookup-set_where_ne id other f [] ne k = refl
lookup-set_where_ne id other f (n ∷ ns) ne k = elim (Bool-cases (n.id == id)) [
  | inl y ↦
      let other_id : (n.id == other) ≡ false =
        ne→beq other n.id (λ q. ne (q ∙ (==_iff n.id id).0 y)) in
      rw y (rw (k n) (rw other_id (lookup-set_where_ne id other f ns ne k)))
  | inr x ↦ rw x (elim (Bool-cases (n.id == other)) [
    | inl z ↦ rw z refl
    | inr z ↦ rw z (lookup-set_where_ne id other f ns ne k)
  ])
]

-- The branch of `update` that writes.
write_effect :
    (id : ℕ) (f : Notice → Notice) (t : Table)
    → ((n : Notice) → (f n).id ≡ n.id)
    → let u : Table = record t { rows = set_where id f t.rows } in
      let r =
        if◌then◌else◌ {A = Option Notice × Table} (is_none (get id t)) (none, u) (get id u, u) in
      (r.0 ≡ apply_to f (get id t))
      × (get id r.1 ≡ r.0)
      × ((other : ℕ) → other ≢ id → get other r.1 ≡ get other t)
unfolding get
write_effect id f t k = answered (get id t) (lookup-set_where id f t.rows k)
  where
    u : Table
    u = record t { rows = set_where id f t.rows }

    answered :
        (o : Option Notice)
        → get id u ≡ apply_to f o
        → let r = if◌then◌else◌ {A = Option Notice × Table} (is_none o) (none, u) (get id u, u) in
          (r.0 ≡ apply_to f o)
          × (get id r.1 ≡ r.0)
          × ((other : ℕ) → other ≢ id → get other r.1 ≡ get other t)
    answered none e = (refl, e, λ other ne. lookup-set_where_ne id other f t.rows ne k)
    answered (some n) e = (e, refl, λ other ne. lookup-set_where_ne id other f t.rows ne k)

-- The notice that comes out, by the assignment.
update_by_assign :
    (now id : ℕ) (body title : Option String) (active : Option Bool) (t : Table)
    → ((update now id body title active t).0 ≡ (
        if is_none body && (is_none title && is_none active)
        then get id t
        else apply_to (assign now body title active) (get id t)))
      × (get id (update now id body title active t).1 ≡ (update now id body title active t).0)
      × ((other : ℕ) → other ≢ id → get other (update now id body title active t).1 ≡ get other t)
unfolding update
update_by_assign now id body title active t =
    branch (is_none body && (is_none title && is_none active))
  where
    f : Notice → Notice
    f = assign now body title active

    u : Table
    u = record t { rows = set_where id f t.rows }

    branch :
        (b : Bool)
        → let r =
            if◌then◌else◌ {A = Option Notice × Table} b
              (get id t, t)
              (if is_none (get id t) then (none, u) else (get id u, u)) in
          (r.0 ≡ (if b then get id t else apply_to f (get id t)))
          × (get id r.1 ≡ r.0)
          × ((other : ℕ) → other ≢ id → get other r.1 ≡ get other t)
    branch true = (refl, refl, λ other ne. refl)
    branch false = write_effect id f t (λ n. refl)

-- A field is the one that is given, or as it was.
abbrev pub Sets {ℓ} : {A : Type ℓ} → Option A → A → A → Type ℓ
Sets none old new = new ≡ old
Sets (some x) old new = new ≡ x

abbrev pub SetsTitle : Option String → Option String → Option String → Type 0
SetsTitle none old new = new ≡ old
SetsTitle (some x) old new = new ≡ some x

-- The notice after an edit against the notice before.
abbrev pub EditOf : ℕ → Option String → Option String → Option Bool → Notice → Notice → Type 0
EditOf now body title active old new =
    Sets body old.body new.body
    × SetsTitle title old.title new.title
    × Sets active old.active new.active
    × (new.updated_at ≡ now)
    × (new.id ≡ old.id)
    × (new.created_by ≡ old.created_by)
    × (new.created_at ≡ old.created_at)

abbrev pub EditedRow :
    ℕ → Option String → Option String → Option Bool → Option Notice → Option Notice → Type 0
EditedRow now body title active none new = new ≡ none
EditedRow now body title active (some old) none = ⊥
EditedRow now body title active (some old) (some new) = EditOf now body title active old new

given-Sets {ℓ} : {A : Type ℓ} (o : Option A) (x : A) → Sets o x (given o x)
given-Sets none x = refl
given-Sets (some y) x = refl

given_title-SetsTitle : (o x : Option String) → SetsTitle o x (given_title o x)
given_title-SetsTitle none x = refl
given_title-SetsTitle (some y) x = refl

assign-EditedRow :
    (now : ℕ) (body title : Option String) (active : Option Bool) (o : Option Notice)
    → EditedRow now body title active o (apply_to (assign now body title active) o)
assign-EditedRow now body title active none = refl
assign-EditedRow now body title active (some n) = (
  given-Sets body n.body,
  given_title-SetsTitle title n.title,
  given-Sets active n.active,
  refl,
  refl,
  refl,
  refl,
)

-- An update that names a field sets the fields that are given and the time of the change, and leaves the
-- other fields; it returns the row as it then is, and none exactly where there is no such notice. An
-- update that names no field is a read. No other notice changes.
pub update_effect :
    (now id : ℕ) (body title : Option String) (active : Option Bool) (t : Table)
    → (body ≡ none
        → title ≡ none
        → active ≡ none
        → update now id body title active t ≡ (get id t, t))
      × ((is_none body && (is_none title && is_none active)) ≡ false
          → EditedRow now body title active (get id t) (update now id body title active t).0)
      × (get id (update now id body title active t).1 ≡ (update now id body title active t).0)
      × ((other : ℕ) → other ≢ id → get other (update now id body title active t).1 ≡ get other t)
unfolding update
update_effect now id body title active t =
    let (r, back, others) = update_by_assign now id body title active t in
    (
      λ b c a. rw (b, c, a) refl,
      λ q.
          subst (EditedRow now body title active (get id t)) (sym (r ∙ rw q refl))
            (assign-EditedRow now body title active (get id t)),
      back,
      others,
    )

lookup-deleted :
    (id : ℕ) (rows : List Notice) → lookup id (select (λ n. not (n.id == id)) rows) ≡ none
lookup-deleted id [] = refl
lookup-deleted id (n ∷ ns) = elim (Bool-cases (n.id == id)) [
  | inl y ↦ rw y (lookup-deleted id ns)
  | inr x ↦ rw x (rw x (lookup-deleted id ns))
]

-- A delete says whether the notice was there; afterwards it is not, and the others are.
pub delete_effect :
    (id : ℕ) (t : Table)
    → ((delete id t).0 ≡ not (is_none (get id t)))
      × (get id (delete id t).1 ≡ none)
      × ((other : ℕ) → other ≢ id → get other (delete id t).1 ≡ get other t)
unfolding delete get
delete_effect id t = (
  refl,
  lookup-deleted id t.rows,
  λ other ne. ap first (
      select-select (λ n. n.id == other) (λ n. not (n.id == id)) t.rows
        (All-of _ t.rows
          (λ n e. rw (ne→beq id n.id (λ q. ne (sym ((==_iff n.id other).0 e) ∙ sym q)))))),
)
