-- ===== src/Studio/Queue/Position.antt =====
-- `queue_position` (apps/ocr-studio/app/core/queue.py) against the list of pending jobs.
use predixa_learn.Prelude.{
  ℕ, suc, ◌+◌, ◌≡◌, refl, false, none, some, List, [], ◌∷◌, ◌==◌, arith, ==_iff, Bool-cases, ◌⊎◌,
  inl, inr, get_elem?, contains, take,
}
use predixa_learn.Studio.Queue.State.{JobQueue}
use predixa_learn.Studio.Queue.Calls.{queue_position, pending_ids, index_from}

-- `id` stands at place `p`, counted from 0, and nowhere before it.
abbrev pub IsFirstAt : ℕ → ℕ → List ℕ → Type 0
IsFirstAt id p ids = (get_elem? ids p ≡ some id) × (contains id (take p ids) ≡ false)

index_from_lem :
    (k id : ℕ) (ids : List ℕ)
    → ((index_from k id ids ≡ none) × (contains id ids ≡ false))
      ⊎ ((p : ℕ) × (index_from k id ids ≡ some (k + p)) × IsFirstAt id p ids)
unfolding index_from contains
index_from_lem k id [] = inl (refl, refl)
index_from_lem k id (x ∷ ids) = elim (Bool-cases (x == id)) [
  | inl e ↦ inr (0, ground arith, (ground (arith, ==_iff x id), refl))
  | inr e ↦ elim (index_from_lem (suc k) id ids) [
    | inl (none_is, out) ↦ inl (ground arith, ground (arith, ==_iff id x))
    | inr (p, at, (there, before)) ↦ inr (suc p, ground arith, (there, ground (arith, ==_iff id x)))
  ]
]

-- A job that is not pending has no position; a pending one has its place in the order of
-- submission among the pending jobs, counted from 1.
pub queue_position_lem :
    (id : ℕ) (q : JobQueue)
    → ((queue_position id q ≡ none) × (contains id (pending_ids q) ≡ false))
      ⊎ ((p : ℕ) × (queue_position id q ≡ some (1 + p)) × IsFirstAt id p (pending_ids q))
unfolding queue_position
queue_position_lem id q = index_from_lem 1 id (pending_ids q)
