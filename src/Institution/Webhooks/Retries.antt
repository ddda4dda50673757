-- ===== src/Institution/Webhooks/Retries.antt =====
-- What a run of the delivery loop does to each delivery
-- (apps/institution-server/institution_server/webhooks.py, `deliver_once`).
use predixa_learn.Prelude.{
  ℕ, suc, ◌+◌, ◌≤◌, ◌≡◌, ◌⊎◌, inl, inr, refl, ap, sym, subst, ◌∙◌, Bool, true, false, ◌||◌, Option,
  none, some, List, [], ◌∷◌, if◌then◌else◌, All, Apart, any, length, same, arith, Bool-cases,
}
use predixa_learn.Institution.Workers.Rows.{Grown, Grown-refl, IsNoRow}
use predixa_learn.Institution.Webhooks.Delivery.{
  DeliveryStatus, Delivery, World, Counts, no_counts, count_one, settle, put, with_settled,
  deliver_all, due, committed, deliver_once,
}
use predixa_learn.Institution.Webhooks.Attempts.{IsAttempt, settle-IsAttempt}
use predixa_learn.Institution.Webhooks.Picks.{
  IsPicked, IsOther, due-IsPicked, due-Apart, length-due,
}

neither : (a b : Bool) → (a || b) ≡ false → (a ≡ false) × (b ≡ false)
neither a b h = (ground (arith, h), ground (arith, h))

-- A row after the attempts at some deliveries, where `ds` are still to come
abbrev Follows : World → ℕ → List Delivery → Delivery → Delivery → Type 0
Follows w now ds o c =
    (c ≡ o) ⊎ (IsAttempt now o c × (any (λ d. same o.delivery_id d.delivery_id) ds ≡ false))

module _ (w : World) (now : ℕ) (d : Delivery) (ds : List Delivery) (others : All (IsOther d) ds)
    (d' : Delivery) (step : IsAttempt now d d') where
  none_among :
      (es : List Delivery)
      → All (IsOther d) es
      → any (λ e. same d.delivery_id e.delivery_id) es ≡ false
  unfolding any
  none_among [] h = refl
  none_among (e ∷ es) h = simp h.0 (none_among es h.1)

  one_put :
      (o c : Delivery)
      → (same o.delivery_id d.delivery_id ≡ true → o ≡ d)
      → Follows w now (d ∷ ds) o c
      → Follows w now ds o (if same c.delivery_id d.delivery_id then d' else c)
  unfolding any
  one_put o c k (inl e) = elim (Bool-cases (same o.delivery_id d.delivery_id)) [
    | inl t ↦
        rw (e, t)
          (inr (
            subst (λ x. IsAttempt now x d') (sym (k t)) step,
            subst (λ x. any (λ e'. same x.delivery_id e'.delivery_id) ds ≡ false) (sym (k t))
                (none_among ds others),
          ))
    | inr f ↦ rw (e, f) (inl refl)
  ]
  one_put o c k (inr h) =
      let apart =
        neither (same o.delivery_id d.delivery_id) (any (λ e. same o.delivery_id e.delivery_id) ds)
          h.1 in
      simp (ap (λ id. same id d.delivery_id) h.0.same_id ∙ apart.0) (inr (h.0, apart.1))

  All-put :
      (os cs : List Delivery)
      → All (λ (o : Delivery). same o.delivery_id d.delivery_id ≡ true → o ≡ d) os
      → Grown (Follows w now (d ∷ ds)) IsNoRow os cs
      → Grown (Follows w now ds) IsNoRow os (put d' cs)
  unfolding put
  All-put [] [] k h = tt
  All-put [] (c ∷ cs) k h = absurd h.0
  All-put (o ∷ os) [] k h = absurd h
  All-put (o ∷ os) (c ∷ cs) k h = (
    subst (λ id. Follows w now ds o (if same c.delivery_id id then d' else c)) (sym step.same_id)
        (one_put o c k.0 h.0),
    All-put os cs k.1 h.1,
  )

module _ (w : World) (now : ℕ) (rows : List Delivery) where
  -- What the loop leaves
  abbrev Ends : Option (List Delivery × Counts) → ℕ → Type 0
  Ends none n = Unit
  Ends (some (rows', c)) n =
      Grown (Follows w now []) IsNoRow rows rows' × (c.delivered + c.pending + c.failed ≡ n)

  abbrev total : Counts → ℕ
  total c = c.delivered + c.pending + c.failed

  one_more : (s : DeliveryStatus) (c : Counts) (n : ℕ) → total (count_one s c) + n ≡ total c + suc n
  one_more DeliveryStatus.pending c n = omega arith
  one_more DeliveryStatus.delivered c n = omega arith
  one_more DeliveryStatus.failed c n = omega arith

  deliver_all-Ends :
      (ds cs : List Delivery) (c : Counts)
      → All (IsPicked now rows) ds
      → Apart IsOther ds
      → Grown (Follows w now ds) IsNoRow rows cs
      → Ends (deliver_all w now ds cs c) (total c + length ds)
  unfolding deliver_all
  deliver_all-Ends [] cs c k a h = (h, omega arith)
  deliver_all-Ends (d ∷ ds) cs c k a h = settled (settle w now d) refl λ d'. λ e.
      deliver_all-Ends ds (put d' cs) (count_one d'.status c) k.1 a.1
        (All-put w now d ds a.0 d' (settle-IsAttempt w now d k.0.0 d' e) rows cs k.0.1 h)
    where
      settled :
          (o : Option Delivery)
          → settle w now d ≡ o
          → ((d' : Delivery)
              → settle w now d ≡ some d'
              → Ends
                  (deliver_all w now ds (put d' cs) (count_one d'.status c))
                  (total (count_one d'.status c) + length ds))
          → Ends
              (with_settled o λ d'. deliver_all w now ds (put d' cs) (count_one d'.status c))
              (total c + suc (length ds))
      settled none e r = tt
      settled (some d') e r =
          subst (Ends (deliver_all w now ds (put d' cs) (count_one d'.status c)))
            (one_more d'.status c (length ds)) (r d' e)

-- Each row is as it was or had its one attempt.
abbrev pub Attempted : ℕ → Delivery → Delivery → Type 0
Attempted now o c = (c ≡ o) ⊎ IsAttempt now o c

-- How a run ends
abbrev pub IsRun : ℕ → List Delivery → List Delivery × Option Counts → Type 0
IsRun now rows (rows', none) = rows' ≡ rows
IsRun now rows (rows', some c) =
    Grown (Attempted now) IsNoRow rows rows' × (c.delivered + c.pending + c.failed ≤ 50)

module _ (w : World) (now : ℕ) where
  all-Attempted :
      (os cs : List Delivery)
      → Grown (Follows w now []) IsNoRow os cs
      → Grown (Attempted now) IsNoRow os cs
  all-Attempted [] [] h = tt
  all-Attempted [] (c ∷ cs) h = absurd h.0
  all-Attempted (o ∷ os) [] h = absurd h
  all-Attempted (o ∷ os) (c ∷ cs) h =
      (elim h.0 [ inl e ↦ inl e | inr k ↦ inr k.0 ], all-Attempted os cs h.1)

  committed-IsRun :
      (rows : List Delivery) (n : ℕ) (r : Option (List Delivery × Counts))
      → n ≤ 50
      → Ends w now rows r n
      → IsRun now rows (committed rows r)
  committed-IsRun rows n none l h = refl
  committed-IsRun rows n (some (rows', c)) l h =
      (all-Attempted rows rows' h.0, omega (arith, h.1, l))

-- Whatever the receivers answer, a run over deliveries with unique ids makes at most one attempt at each
-- row, only where it was pending and due, and at most fifty in all. A row that is pending afterwards
-- has one attempt more, fewer than ten, and its next attempt is 30 seconds to an hour away. Where
-- another exception than an HTTPError is raised, the run changes nothing.
pub deliver_once-IsRun :
    (signed : Bool) (w : World) (now : ℕ) (rows : List Delivery)
    → Apart IsOther rows
    → IsRun now rows (deliver_once signed w now rows)
unfolding deliver_once
deliver_once-IsRun false w now rows unique =
    (Grown-refl (Attempted now) IsNoRow (λ d. inl refl) rows, omega arith)
deliver_once-IsRun true w now rows unique =
    committed-IsRun w now rows (0 + length (due now rows)) _ (omega (arith, length-due now rows)) (
      deliver_all-Ends w now rows (due now rows) rows no_counts (due-IsPicked now rows unique)
        (due-Apart now rows unique)
        (Grown-refl (Follows w now (due now rows)) IsNoRow (λ d. inl refl) rows))
