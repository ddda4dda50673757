-- ===== src/Institution/Webhooks/Failures.antt =====
-- What an exception does to a run (apps/institution-server/institution_server/webhooks.py,
-- `deliver_once`, which catches httpx.HTTPError only and commits at its end).
use predixa_learn.Prelude.{
  ℕ, ◌≡◌, refl, Bool, true, false, ◌||◌, Option, none, some, List, [], ◌∷◌, any, arith,
}
use predixa_learn.Institution.Webhooks.Delivery.{
  Delivery, Counts, World, settle, put, count_one, with_settled, deliver_all, due, deliver_once,
  no_counts,
}

abbrev pub raises : Option Delivery → Bool
raises none = true
raises (some d) = false

module _ (w : World) (now : ℕ) where
  deliver_all-raises :
      (ds rows : List Delivery) (c : Counts)
      → any (λ d. raises (settle w now d)) ds ≡ true
      → deliver_all w now ds rows c ≡ none
  unfolding deliver_all any
  deliver_all-raises [] rows c h = absurd (ground arith)
  deliver_all-raises (d ∷ ds) rows c h =
      settled (settle w now d) h
        λ k d'. deliver_all-raises ds (put d' rows) (count_one d'.status c) k
    where
      settled :
          (o : Option Delivery)
          → (raises o || any (λ e. raises (settle w now e)) ds) ≡ true
          → (any (λ e. raises (settle w now e)) ds ≡ true
              → (d' : Delivery) → deliver_all w now ds (put d' rows) (count_one d'.status c) ≡ none)
          → (with_settled o λ d'. deliver_all w now ds (put d' rows) (count_one d'.status c)) ≡ none
      settled none k r = refl
      settled (some d') k r = r k d'

  -- If the attempt at one of the deliveries that are due raises another exception than an HTTPError,
  -- then the run keeps nothing of what it did for any of them: no row changes, so the deliveries that
  -- receivers accepted before are pending and due again, with no attempt counted.
  pub deliver_once-raises :
      (rows : List Delivery)
      → any (λ d. raises (settle w now d)) (due now rows) ≡ true
      → deliver_once true w now rows ≡ (rows, none)
  unfolding deliver_once
  deliver_once-raises rows h = simp (deliver_all-raises (due now rows) rows no_counts h) refl
