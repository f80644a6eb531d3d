-- ===== src/Web/Auth/Retention.antt =====
-- How much of the diagnostic events is kept and shown (src/web/auth.py).
use lb_note.Base.{
  ℕ, zero, suc, ◌+◌, ◌-◌, ◌≤◌, ◌≡◌, refl, ap, min, max, Option, Bool, true, not, ◌&&◌, List, [],
  ◌∷◌, ◌++◌, arith, ltb, ◌==◌, nat_Eq, list_Eq, select, length, length-select, take, drop, All,
  All-select_test, All-map, &&_left, &&_right,
}
use lb_note.Base.Chars.{Chars}
use lb_note.Web.Auth.Events.{UserEvent, recent, lets, list_user_events, prune_user_events}

take-drop {ℓ} : {A : Type ℓ} (n : ℕ) (xs : List A) → xs ≡ take n xs ++ drop n xs
take-drop zero xs = refl
take-drop (suc n) [] = refl
take-drop (suc n) (x ∷ xs) = ap (λ r. x ∷ r) (take-drop n xs)

length-take {ℓ} : {A : Type ℓ} (n : ℕ) (xs : List A) → length (take n xs) ≡ min n (length xs)
length-take zero xs = omega arith
length-take (suc n) [] = omega arith
length-take (suc n) (x ∷ xs) = omega (arith, length-take n xs)

All-take {ℓ κ} : {A : Type ℓ} (P : A → Type κ) (n : ℕ) (xs : List A) → All P xs → All P (take n xs)
All-take P zero xs h = tt
All-take P (suc n) [] h = tt
All-take P (suc n) (x ∷ xs) h = (h.0, All-take P n xs h.1)

-- After a pruning at most as many events are left as the bound says, but at least one when one is young
-- enough, and none that is too old. Those that are left are the newest of the young ones; with those
-- that the report counts they are as many as there were.
prune_bounds :
    (now max_age max_rows : ℕ) (es : List UserEvent)
    → let kept = (prune_user_events now max_age max_rows es).1 in
      (length kept ≤ max 1 max_rows)
      × (length kept ≡ min (max 1 max_rows) (length (recent now max_age es)))
      × All (λ e. now - max_age ≤ e.ts) kept
      × ((older : List UserEvent) × (recent now max_age es ≡ kept ++ older))
      × ((prune_user_events now max_age max_rows es).0 + length kept ≡ length es)
unfolding prune_user_events
prune_bounds now max_age max_rows es =
    let n = max 1 max_rows in
    let young = recent now max_age es in
    let e = length-take n young in
    let whole = length-select (λ x. not (ltb x.ts (now - max_age))) es in
    (
      omega (arith, e),
      e,
      All-map _ _ (take n young) (λ x h. ground arith)
          (All-take _ n young (All-select_test (λ x. not (ltb x.ts (now - max_age))) es)),
      (drop n young, take-drop n young),
      omega (arith, e, whole),
    )

-- A listing shows at least one event when one passes the filters, at most five hundred and at most as
-- many as are asked for unless that is none, each of the owner asked for and with the event asked for.
list_bounds :
    (like : Chars → Chars → Bool) (owner prefix : Option Chars) (limit : ℕ) (es : List UserEvent)
    → let shown = list_user_events like owner prefix limit es in
      (length shown ≤ max 1 (min limit 500))
      × All
          (λ e.
            (lets (λ o. e.owner == o) owner ≡ true) × (lets (λ p. like p e.event) prefix ≡ true))
          shown
unfolding list_user_events
list_bounds like owner prefix limit es =
    let n = max 1 (min limit 500) in
    let q : UserEvent → Bool =
      λ e. lets (λ o. e.owner == o) owner && lets (λ p. like p e.event) prefix in
    (
      omega (arith, length-take n (select q es)),
      All-map _ _ (take n (select q es)) (λ x h. (&&_left _ _ h, &&_right _ _ h))
          (All-take _ n (select q es) (All-select_test q es)),
    )
