-- ===== src/Base/Dict.antt =====
-- A Python dict in insertion order, and the operations on it that the program uses.
use lb_note.Base.Tests.{if◌then◌else◌}
use lb_note.Base.Equality.{Eq, ==_refl, ◌==◌}
use mathlib.Core.Path.{◌≡◌, refl}
use mathlib.Core.Bool.{Bool, true, false}
use mathlib.Core.Option.{Option, none, some}
use mathlib.Core.List.{List, [], ◌∷◌}
use native.Mathlib.Omega.{arith}

abbrev pub Dict {ℓ κ} : Type ℓ → Type κ → Type (ℓ ⊔ κ)
Dict K V = List (K × V)

abbrev pub or_default {ℓ} : {V : Type ℓ} → V → Option V → V
or_default x none = x
or_default x (some v) = v

abbrev pub is_some {ℓ} : {V : Type ℓ} → Option V → Bool
is_some none = false
is_some (some v) = true

module _ {ℓ κ} {K : Type ℓ} {V : Type κ} ⦃e : Eq K⦄ where
  -- `d.get(k)`, with `none` for a missing key.
  unfoldable pub get? : K → Dict K V → Option V
  get? k [] = none
  get? k ((j, v) ∷ d) = if j == k then some v else get? k d

  -- `d.get(k, default)`.
  abbrev pub get_or : K → V → Dict K V → V
  get_or k x d = or_default x (get? k d)

  -- `k in d`.
  abbrev pub contains : K → Dict K V → Bool
  contains k d = is_some (get? k d)

  -- `d[k] = v`: a key that is there keeps its place.
  unfoldable pub put : K → V → Dict K V → Dict K V
  put k v [] = (k, v) ∷ []
  put k v ((j, w) ∷ d) = if j == k then (j, v) ∷ d else (j, w) ∷ put k v d

  -- `d.pop(k, None)`.
  unfoldable pub remove : K → Dict K V → Dict K V
  remove k [] = []
  remove k ((j, w) ∷ d) = if j == k then remove k d else (j, w) ∷ remove k d

  -- `d.update(patch)`.
  unfoldable pub update : Dict K V → Dict K V → Dict K V
  update d [] = d
  update d ((k, v) ∷ patch) = update (put k v d) patch

  pub get?-put :
      (j k : K) (v : V) (d : Dict K V) → get? j (put k v d) ≡ (if k == j then some v else get? j d)
  unfolding get? put
  get?-put j k v [] = refl
  get?-put j k v ((i, w) ∷ d) =
      ground (arith, e.same_iff k j, e.same_iff i k, e.same_iff i j, get?-put j k v d)

  pub get?-put_self : (k : K) (v : V) (d : Dict K V) → get? k (put k v d) ≡ some v
  get?-put_self k v d = simp (get?-put, ==_refl)

  pub get?-remove :
      (j k : K) (d : Dict K V) → get? j (remove k d) ≡ (if k == j then none else get? j d)
  unfolding get? remove
  get?-remove j k [] = ground arith
  get?-remove j k ((i, w) ∷ d) =
      ground (arith, e.same_iff k j, e.same_iff i k, e.same_iff i j, get?-remove j k d)

  -- A key that the patch does not name keeps its value.
  pub get?-update-none :
      (j : K) (patch d : Dict K V) → get? j patch ≡ none → get? j (update d patch) ≡ get? j d
  unfolding get? update
  get?-update-none j [] d h = refl
  get?-update-none j ((k, v) ∷ patch) d h =
      ground (arith, get?-update-none j patch (put k v d), get?-put j k v d)
