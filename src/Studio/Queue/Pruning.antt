-- ===== src/Studio/Queue/Pruning.antt =====
-- `_prune` (apps/ocr-studio/app/core/queue.py): which keys go, which stay, and when its loop ends.
use predixa_learn.Prelude.{
  ℕ, zero, suc, ◌≤◌, ◌<◌, ◌≡◌, refl, ap, subst, ◌∙◌, Bool, true, false, not, ◌&&◌, none, some, List,
  [], ◌∷◌, ◌==◌, ltb, arith, ==_iff, ==_refl, Bool-cases, Option-cases, ◌⊎◌, inl, inr, without,
  contains, keep, first, length,
}
use predixa_learn.Studio.Queue.State.{is_terminal, JobQueue, status_of}
use predixa_learn.Studio.Queue.Ops.{prune, trim, is_expired}

contains-without :
    (k id : ℕ) (jobs : List ℕ) → (k == id) ≡ false → contains k (without id jobs) ≡ contains k jobs
unfolding contains without
contains-without k id [] h = refl
contains-without k id (x ∷ jobs) h =
    ground (arith, contains-without k id jobs h, ==_iff id x, ==_iff k x)

contains-without_le :
    (k id : ℕ) (jobs : List ℕ) → contains k (without id jobs) ≡ true → contains k jobs ≡ true
unfolding contains without
contains-without_le k id [] h = h
contains-without_le k id (x ∷ jobs) h = ground (arith, contains-without_le k id jobs)

contains-keep :
    (p : ℕ → Bool) (k : ℕ) (jobs : List ℕ) → contains k (keep p jobs) ≡ (contains k jobs && p k)
unfolding contains keep
contains-keep p k [] = refl
contains-keep p k (x ∷ jobs) = elim (Bool-cases (k == x)) [
  | inl same ↦
      let e : k ≡ x = (==_iff k x).0 same in
      rw e (
        ground (
          arith,
          subst (λ i. contains i (keep p jobs) ≡ (contains i jobs && p i)) e
              (contains-keep p k jobs),
          ==_refl x,
        ))
  | inr other ↦ ground (arith, contains-keep p k jobs)
]

length-without : (id : ℕ) (jobs : List ℕ) → length (without id jobs) ≤ length jobs
unfolding without
length-without id [] = omega arith
length-without id (x ∷ jobs) = ground (arith, length-without id jobs)

first-some :
    (p : ℕ → Bool) (jobs : List ℕ) (id : ℕ)
    → first p jobs ≡ some id
    → (p id ≡ true) × (length (without id jobs) < length jobs)
unfolding first without
first-some p [] id h = cc
first-some p (x ∷ jobs) id h = elim (Bool-cases (p x)) [
  | inl e ↦
      let h' : some x ≡ some id = rw e at h in
      let same : x ≡ id = cc in
      subst (λ i. (p i ≡ true) × (length (without i (x ∷ jobs)) < length (x ∷ jobs))) same
        (e, ground (arith, ==_refl x, length-without x jobs))
  | inr e ↦ let ih = first-some p jobs id (rw e at h) in (ih.0, ground (arith, ih.1))
]

told_apart : (p : ℕ → Bool) (k id : ℕ) → p k ≡ false → p id ≡ true → (k == id) ≡ false
told_apart p k id out inside = elim (Bool-cases (k == id)) [
  | inl e ↦ let same : p k ≡ p id = ap p ((==_iff k id).0 e) in cc
  | inr e ↦ e
]

module _ (removable : ℕ → Bool) (limit : ℕ) where
  trim_ends :
      (fuel : ℕ) (jobs : List ℕ)
      → length jobs ≤ fuel
      → (length (trim removable limit fuel jobs) ≤ limit)
        ⊎ (first removable (trim removable limit fuel jobs) ≡ none)
  unfolding trim
  trim_ends zero jobs h = inl (omega arith)
  trim_ends (suc fuel) jobs h = elim (Bool-cases (ltb limit (length jobs))) [
    | inl more ↦ elim (Option-cases (first removable jobs)) [
      | inl e ↦ inr (rw (more, e) e)
      | inr (id, e) ↦
          rw (more, e)
            (trim_ends fuel (without id jobs) (omega (arith, (first-some removable jobs id e).1)))
    ]
    | inr less ↦ inl (rw less (ground arith))
  ]

  contains-trim :
      (k fuel : ℕ) (jobs : List ℕ)
      → removable k ≡ false
      → contains k (trim removable limit fuel jobs) ≡ contains k jobs
  unfolding trim
  contains-trim k zero jobs h = refl
  contains-trim k (suc fuel) jobs h = elim (Option-cases (first removable jobs)) [
    | inl e ↦ rw e (ground arith)
    | inr (id, e) ↦
        let apart : (k == id) ≡ false =
          told_apart removable k id h (first-some removable jobs id e).0 in
        rw e (
          ground
            (arith, contains-trim k fuel (without id jobs) h, contains-without k id jobs apart))
  ]

  contains-trim_le :
      (k fuel : ℕ) (jobs : List ℕ)
      → contains k (trim removable limit fuel jobs) ≡ true
      → contains k jobs ≡ true
  unfolding trim
  contains-trim_le k zero jobs h = h
  contains-trim_le k (suc fuel) jobs h = elim (Option-cases (first removable jobs)) [
    | inl e ↦ let h' = rw (e, trim) at h in ground arith
    | inr (id, e) ↦
        ground (arith, e, contains-trim_le k fuel (without id jobs), contains-without_le k id jobs)
  ]

expired_terminal :
    (q : JobQueue) (now k : ℕ) → is_terminal (status_of q k) ≡ false → is_expired q now k ≡ false
unfolding is_expired
expired_terminal q now k h = ground arith

-- After `_prune` every unfinished job is there that was there before, no job is there that was not
-- or that has expired, and either the history limit holds or no finished job is left to remove.
pub prune_lem :
    (now : ℕ) (q : JobQueue)
    → ((k : ℕ)
        → is_terminal (status_of q k) ≡ false
        → contains k (prune now q).jobs ≡ contains k q.jobs)
      × ((k : ℕ)
          → contains k (prune now q).jobs ≡ true
          → (contains k q.jobs ≡ true) × (is_expired q now k ≡ false))
      × ((length (prune now q).jobs ≤ q.settings.max_job_history)
          ⊎ (first (λ k. is_terminal (status_of q k)) (prune now q).jobs ≡ none))
unfolding prune
prune_lem now q = (stays, bounded_by, trim_ends removable limit _ kept (omega arith))
  where
    removable : ℕ → Bool
    removable k = is_terminal (status_of q k)

    limit : ℕ
    limit = q.settings.max_job_history

    kept : List ℕ
    kept = keep (λ k. not (is_expired q now k)) q.jobs

    stays :
        (k : ℕ)
        → is_terminal (status_of q k) ≡ false
        → contains k (trim removable limit (length kept) kept) ≡ contains k q.jobs
    stays k h =
        contains-trim removable limit k (length kept) kept h
        ∙ contains-keep (λ k. not (is_expired q now k)) k q.jobs
        ∙ ground (arith, expired_terminal q now k h)

    bounded_by :
        (k : ℕ)
        → contains k (trim removable limit (length kept) kept) ≡ true
        → (contains k q.jobs ≡ true) × (is_expired q now k ≡ false)
    bounded_by k h = ground (
      arith,
      contains-trim_le removable limit k (length kept) kept h,
      contains-keep (λ k. not (is_expired q now k)) k q.jobs,
    )
