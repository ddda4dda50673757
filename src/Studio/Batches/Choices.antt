-- ===== src/Studio/Batches/Choices.antt =====
-- The item that is the first to take, the oldest batch before the others
-- (apps/ocr-studio/app/teaching/batches.py, `_next_item`).
use mathlib.Core.Option.{some-injective, none-ne-some}
use predixa_learn.Prelude.{
  ◌≡◌, ap, subst, sym, true, false, none, some, List, [], ◌∷◌, ◌++◌, All, first, arith, Bool-cases,
  inl, inr,
}
use predixa_learn.Studio.Batches.State.{Item, BatchView, is_queued_item}
use predixa_learn.Studio.Batches.Coordinator.{is_active, Candidate}

-- The batch has nothing to take.
abbrev pub HasNone : BatchView → Type 0
HasNone b =
    is_active b.header.status ≡ true → All (λ (i : Item). is_queued_item i.status ≡ false) b.items

-- The item is the first queued one of the batch.
pub record IsFirstQueued (i : Item) (is : List Item) : Type 0 where
  pub before : List Item
  pub after : List Item
  pub it : is ≡ before ++ i ∷ after
  pub none_before : All (λ (j : Item). is_queued_item j.status ≡ false) before
  pub is_queued : is_queued_item i.status ≡ true

pub record IsFirstActive (b : BatchView) (bs : List BatchView) : Type 0 where
  pub older : List BatchView
  pub newer : List BatchView
  pub it : bs ≡ older ++ b ∷ newer
  pub none_older : All HasNone older
  pub active : is_active b.header.status ≡ true

-- What the coordinator takes of the batches, the oldest first
abbrev pub IsChoice : List BatchView → Candidate → Type 0
IsChoice bs none = All HasNone bs
IsChoice bs (some (b, i)) = IsFirstActive b bs × IsFirstQueued i b.items

pub first-IsFirstQueued :
    (is : List Item) (i : Item)
    → first (λ (j : Item). is_queued_item j.status) is ≡ some i
    → IsFirstQueued i is
unfolding first
first-IsFirstQueued [] i h = absurd (ground arith)
first-IsFirstQueued (j ∷ is) i h = elim (Bool-cases (is_queued_item j.status)) [
  | inl e ↦
      let it : j ≡ i = some-injective j i (simp e at h) in
      record {
        before = [];
        after = is;
        it = ap (λ k. k ∷ is) it;
        none_before = tt;
        is_queued = subst (λ (k : Item). is_queued_item k.status ≡ true) it e;
      }
  | inr e ↦
      let f = first-IsFirstQueued is i (simp e at h) in
      record {
        before = j ∷ f.before;
        after = f.after;
        it = ap (◌∷◌ j) f.it;
        none_before = (e, f.none_before);
        is_queued = f.is_queued;
      }
]

pub none-queued :
    (is : List Item)
    → first (λ (j : Item). is_queued_item j.status) is ≡ none
    → All (λ (j : Item). is_queued_item j.status ≡ false) is
unfolding first
none-queued [] h = tt
none-queued (j ∷ is) h = elim (Bool-cases (is_queued_item j.status)) [
  | inl e ↦ absurd (none-ne-some j (sym (simp e at h)))
  | inr e ↦ (e, none-queued is (simp e at h))
]

-- A choice among the later batches, where the first has nothing to take
pub passed :
    (b : BatchView) (bs : List BatchView) (c : Candidate)
    → HasNone b
    → IsChoice bs c
    → IsChoice (b ∷ bs) c
passed b bs none h k = (h, k)
passed b bs (some (b', i)) h k = (
  record {
    older = b ∷ k.0.older;
    newer = k.0.newer;
    it = ap (◌∷◌ b) k.0.it;
    none_older = (h, k.0.none_older);
    active = k.0.active;
  },
  k.1,
)
