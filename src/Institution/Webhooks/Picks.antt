-- ===== src/Institution/Webhooks/Picks.antt =====
-- The deliveries that a run picks
-- (apps/institution-server/institution_server/webhooks.py, `deliver_once`).
use predixa_learn.Prelude.{
  not_both, ℕ, zero, suc, ◌≤◌, ◌≡◌, refl, ◌∙◌, true, false, List, [], ◌∷◌, All, All-perm, All-take,
  All-keep, All-both, Apart-take, keep-holds, Apart, Apart-perm, Apart-keep, keep, take, length,
  sort, sort-perm, same, same_sym, arith,
}
use predixa_learn.Institution.Webhooks.Delivery.{Delivery, is_due, due}

-- The delivery is due, and the row of the table with its id is this one.
abbrev pub IsPicked : ℕ → List Delivery → Delivery → Type 0
IsPicked now rows d =
    (is_due now d ≡ true)
    × All (λ (o : Delivery). same o.delivery_id d.delivery_id ≡ true → o ≡ d) rows

-- Different ids
abbrev pub IsOther : Delivery → Delivery → Type 0
IsOther d e = same d.delivery_id e.delivery_id ≡ false

IsOther-sym : (d e : Delivery) → IsOther d e → IsOther e d
IsOther-sym d e h = same_sym e.delivery_id d.delivery_id ∙ h

-- The row with the id of `d` is `d`.
abbrev IsOnly : List Delivery → Delivery → Type 0
IsOnly rows d = All (λ (o : Delivery). same o.delivery_id d.delivery_id ≡ true → o ≡ d) rows

first-IsOnly : (x : Delivery) (xs : List Delivery) → All (IsOther x) xs → IsOnly xs x
first-IsOnly x [] h = tt
first-IsOnly x (o ∷ xs) h = (λ t. absurd (not_both t (IsOther-sym x o h.0)), first-IsOnly x xs h.1)

with_first :
    (x : Delivery) (ds xs : List Delivery)
    → All (IsOther x) ds
    → All (IsOnly xs) ds
    → All (IsOnly (x ∷ xs)) ds
with_first x [] xs h k = tt
with_first x (d ∷ ds) xs h k = ((λ t. absurd (not_both t h.0), k.0), with_first x ds xs h.1 k.1)

All-IsOnly : (xs : List Delivery) → Apart IsOther xs → All (IsOnly xs) xs
All-IsOnly [] h = tt
All-IsOnly (x ∷ xs) h =
    ((λ t. refl, first-IsOnly x xs h.0), with_first x xs xs h.0 (All-IsOnly xs h.1))

abbrev created : Delivery → ℕ
created d = d.created_at

module _ (now : ℕ) (rows : List Delivery) (unique : Apart IsOther rows) where
  pub due-IsPicked : All (IsPicked now rows) (due now rows)
  unfolding due
  due-IsPicked = All-take (IsPicked now rows) 50 (sort created (keep (is_due now) rows)) (
      All-perm (IsPicked now rows) (sort-perm created (keep (is_due now) rows)) (
        All-both (λ d. is_due now d ≡ true) (IsOnly rows) (keep (is_due now) rows)
          (keep-holds (is_due now) rows)
          (All-keep (IsOnly rows) (is_due now) rows (All-IsOnly rows unique))))

  pub due-Apart : Apart IsOther (due now rows)
  unfolding due
  due-Apart = Apart-take IsOther 50 (sort created (keep (is_due now) rows)) (
      Apart-perm IsOther IsOther-sym (sort-perm created (keep (is_due now) rows))
        (Apart-keep IsOther (is_due now) rows unique))

length-take : {A : Type 0} (n : ℕ) (xs : List A) → length (take n xs) ≤ n
length-take zero xs = omega arith
length-take (suc n) [] = omega arith
length-take (suc n) (x ∷ xs) = omega (arith, length-take n xs)

pub length-due : (now : ℕ) (rows : List Delivery) → length (due now rows) ≤ 50
unfolding due
length-due now rows = length-take 50 (sort created (keep (is_due now) rows))
