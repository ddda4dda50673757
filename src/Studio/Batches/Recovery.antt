-- ===== src/Studio/Batches/Recovery.antt =====
-- What a restart recovers (apps/ocr-studio/app/teaching/store.py, `recover_batches`).
use predixa_learn.Prelude.{
  subst, sym, arith, true, ◌≡◌, ◌||◌, same, keep-map, refl, ap, ◌∙◌, Bool, false, List, [], ◌∷◌,
  map, All, keep, sort, sort-map, Text,
}
use predixa_learn.Studio.Batches.State.{
  BatchStatus, ItemStatus, Item, Batch, Table, in_batch, items_of, position_rank, rank,
  is_queued_item,
}
use predixa_learn.Studio.Batches.Orders.{is_processing_item}
use predixa_learn.Studio.Batches.Statuses.{
  is_interrupted_item, is_processing_batch, interrupt, requeue, requeue_batch, recover_batches,
}
use predixa_learn.Studio.Batches.Contracts.{order_of, order_of_items}

abbrev recovered : Item → Item
recovered i = requeue (interrupt i)

-- The row is neither processing nor interrupted.
abbrev pub IsIdle : Item → Type 0
IsIdle i = (is_processing_item i.status ≡ false) × (is_interrupted_item i.status ≡ false)

module _ (i : Item) where
  recovered-IsIdle : (s : ItemStatus) → i.status ≡ s → IsIdle (recovered i)
  recovered-IsIdle ItemStatus.queued e = simp e (refl, refl)
  recovered-IsIdle ItemStatus.processing e = simp e (refl, refl)
  recovered-IsIdle ItemStatus.completed e = simp e (refl, refl)
  recovered-IsIdle ItemStatus.failed e = simp e (refl, refl)
  recovered-IsIdle ItemStatus.cancelled e = simp e (refl, refl)
  recovered-IsIdle ItemStatus.interrupted e = simp e (refl, refl)

  recovered_keeps :
      (s : ItemStatus)
      → i.status ≡ s
      → ((recovered i).item_id ≡ i.item_id)
        × ((recovered i).batch_id ≡ i.batch_id)
        × ((recovered i).position ≡ i.position)
  recovered_keeps ItemStatus.queued e = simp e (refl, refl, refl)
  recovered_keeps ItemStatus.processing e = simp e (refl, refl, refl)
  recovered_keeps ItemStatus.completed e = simp e (refl, refl, refl)
  recovered_keeps ItemStatus.failed e = simp e (refl, refl, refl)
  recovered_keeps ItemStatus.cancelled e = simp e (refl, refl, refl)
  recovered_keeps ItemStatus.interrupted e = simp e (refl, refl, refl)

  -- A row is queued afterwards if it was queued, processing or interrupted.
  recovered_queued :
      (s : ItemStatus)
      → i.status ≡ s
      → is_queued_item (recovered i).status
        ≡ (is_queued_item s || is_processing_item s || is_interrupted_item s)
  recovered_queued ItemStatus.queued e = simp e refl
  recovered_queued ItemStatus.processing e = simp e refl
  recovered_queued ItemStatus.completed e = simp e refl
  recovered_queued ItemStatus.failed e = simp e refl
  recovered_queued ItemStatus.cancelled e = simp e refl
  recovered_queued ItemStatus.interrupted e = simp e refl

All-IsIdle : (is : List Item) → All IsIdle (map requeue (map interrupt is))
All-IsIdle [] = tt
All-IsIdle (i ∷ is) = (recovered-IsIdle i i.status refl, All-IsIdle is)

map-map : (is : List Item) → map requeue (map interrupt is) ≡ map recovered is
map-map [] = refl
map-map (i ∷ is) = ap (◌∷◌ (recovered i)) (map-map is)

All-requeued :
    (bs : List Batch)
    → All (λ (b : Batch). is_processing_batch b.status ≡ false) (map requeue_batch bs)
All-requeued [] = tt
All-requeued (b ∷ bs) = (one b b.status refl, All-requeued bs)
  where
    one :
        (b : Batch) (s : BatchStatus)
        → b.status ≡ s
        → is_processing_batch (requeue_batch b).status ≡ false
    one b BatchStatus.processing e = simp e refl
    one b BatchStatus.draft e = simp e refl
    one b BatchStatus.queued e = simp e refl
    one b BatchStatus.paused e = simp e refl
    one b BatchStatus.completed e = simp e refl
    one b BatchStatus.partial e = simp e refl
    one b BatchStatus.cancelled e = simp e refl

same_order : (is : List Item) → order_of_items (map recovered is) ≡ order_of_items is
same_order [] = refl
same_order (i ∷ is) =
    let k = recovered_keeps i i.status refl in
    λ j. (k.0 j ∷ (same_order is j).0, k.2 j ∷ (same_order is j).1)

recovered-order : (id : Text) (t : Table) → order_of id (recover_batches t).1 ≡ order_of id t
unfolding recover_batches items_of
recovered-order id t =
    ap (λ is. order_of_items (sort position_rank (keep (in_batch id) is))) (map-map t.items)
    ∙ ap (λ is. order_of_items (sort position_rank is))
        (keep-map (in_batch id) recovered
          (λ i. ap (λ b. same b id) (recovered_keeps i i.status refl).1) t.items)
    ∙ ap order_of_items (
        sort-map position_rank recovered (λ i. ap rank (recovered_keeps i i.status refl).2)
          (keep (in_batch id) t.items))
    ∙ same_order (sort position_rank (keep (in_batch id) t.items))

-- Which rows are waiting for the coordinator after a restart
abbrev pub is_recoverable : Item → Bool
is_recoverable i =
    is_queued_item i.status || is_processing_item i.status || is_interrupted_item i.status

-- A row before and after a restart
pub record IsRecovery (i j : Item) : Type 0 where
  pub same_id : j.item_id ≡ i.item_id
  pub same_batch : j.batch_id ≡ i.batch_id
  pub is_queued : is_recoverable i ≡ true → is_queued_item j.status ≡ true
  pub same_status : is_recoverable i ≡ false → j.status ≡ i.status

-- The rows of two tables, one by one
abbrev pub AreRecovered : List Item → List Item → Type 0
AreRecovered [] [] = Unit
AreRecovered (i ∷ is) (j ∷ js) = IsRecovery i j × AreRecovered is js
AreRecovered _ _ = ⊥

recovered_status :
    (i : Item) (s : ItemStatus)
    → i.status ≡ s
    → (is_queued_item s || is_processing_item s || is_interrupted_item s) ≡ false
    → (recovered i).status ≡ i.status
recovered_status i ItemStatus.queued e h = absurd (ground (arith, h))
recovered_status i ItemStatus.processing e h = absurd (ground (arith, h))
recovered_status i ItemStatus.completed e h = simp e refl
recovered_status i ItemStatus.failed e h = simp e refl
recovered_status i ItemStatus.cancelled e h = simp e refl
recovered_status i ItemStatus.interrupted e h = absurd (ground (arith, h))

all-AreRecovered : (is : List Item) → AreRecovered is (map recovered is)
all-AreRecovered [] = tt
all-AreRecovered (i ∷ is) = (
  record {
    same_id = (recovered_keeps i i.status refl).0;
    same_batch = (recovered_keeps i i.status refl).1;
    is_queued = λ h. recovered_queued i i.status refl ∙ h;
    same_status = recovered_status i i.status refl;
  },
  all-AreRecovered is,
)

-- After a restart no item is processing or interrupted and no batch is processing; each row that was
-- queued, processing or interrupted is queued, each other row keeps its status, and every batch has its
-- items in the same order.
pub recover_batches_lem :
    (t : Table)
    → let t' = (recover_batches t).1 in
      All IsIdle t'.items
      × All (λ (b : Batch). is_processing_batch b.status ≡ false) t'.batches
      × AreRecovered t.items t'.items
      × ((id : Text) → order_of id t' ≡ order_of id t)
unfolding recover_batches
recover_batches_lem t = (
  All-IsIdle t.items,
  All-requeued t.batches,
  subst (AreRecovered t.items) (sym (map-map t.items)) (all-AreRecovered t.items),
  λ id. recovered-order id t,
)
