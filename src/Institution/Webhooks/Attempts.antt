-- ===== src/Institution/Webhooks/Attempts.antt =====
-- One attempt at a delivery (apps/institution-server/institution_server/webhooks.py, `deliver_once`).
use Prim.Native.Nat.{◌^◌}
use native.Mathlib.Nat.{pow-le-pow_right}
use mathlib.Core.Option.{some-injective}
use predixa_learn.Prelude.{
  ℕ, ◌+◌, ◌*◌, ◌≤◌, ◌<◌, ◌≡◌, ◌⊎◌, inl, inr, refl, subst, Bool, true, false, not, ◌&&◌, some,
  if◌then◌else◌, leb, text, arith,
}
use predixa_learn.Institution.Webhooks.Delivery.{
  DeliveryStatus, is_pending, Delivery, Response, accepted, http_error, other_error, World, is_due,
  min, delay, after_response, settle,
}

-- One attempt at a delivery
pub record IsAttempt (now : ℕ) (d d' : Delivery) : Type 0 where
  pub was_due : is_due now d ≡ true
  pub same_id : d'.delivery_id ≡ d.delivery_id
  pub counted : (d'.attempt ≡ d.attempt) ⊎ (d'.attempt ≡ d.attempt + 1)
  pub waits :
      is_pending d'.status ≡ true
      → (d'.attempt ≡ d.attempt + 1)
        × (d'.attempt < 10)
        × (now + 30 * 1000000 ≤ d'.next_attempt_at)
        × (d'.next_attempt_at ≤ now + 3600 * 1000000)

delay_bounds : (n : ℕ) → 1 ≤ n → (30 ≤ delay n) × (delay n ≤ 3600)
unfolding delay
delay_bounds n h = (ground (arith, low, high), ground (arith, low, high))
  where
    low : 2 ^ 1 ≤ 2 ^ min n 8
    low = pow-le-pow_right (omega arith) {i = 1} {j = min n 8} (ground (arith, h))

    high : 2 ^ min n 8 ≤ 2 ^ 8
    high = pow-le-pow_right (omega arith) {i = min n 8} {j = 8} (ground (arith, h))

module _ (w : World) (now : ℕ) (d : Delivery) (is_due_now : is_due now d ≡ true) where
  answered-IsAttempt :
      (r : Response) (d' : Delivery)
      → after_response now (record d { attempt = d.attempt + 1 }) r ≡ some d'
      → IsAttempt now d d'
  answered-IsAttempt accepted d' h = subst (IsAttempt now d) (some-injective _ d' h) record {
    was_due = is_due_now;
    same_id = refl;
    counted = inr refl;
    waits = λ p. absurd (ground (arith, p));
  }
  answered-IsAttempt http_error d' h = branch (leb 10 (d.attempt + 1)) refl h
    where
      branch :
          (b : Bool)
          → leb 10 (d.attempt + 1) ≡ b
          → some (
              if b
              then record d {
                attempt = d.attempt + 1;
                status = DeliveryStatus.failed;
                last_error = some (text "Webhook delivery exhausted its retry policy");
              }
              else record d {
                attempt = d.attempt + 1;
                next_attempt_at = now + delay (d.attempt + 1) * 1000000;
                last_error = some (text "Webhook target is temporarily unavailable");
              })
            ≡ some d'
          → IsAttempt now d d'
      branch true e k = subst (IsAttempt now d) (some-injective _ d' k) record {
        was_due = is_due_now;
        same_id = refl;
        counted = inr refl;
        waits = λ p. absurd (ground (arith, p));
      }
      branch false e k = subst (IsAttempt now d) (some-injective _ d' k) record {
        was_due = is_due_now;
        same_id = refl;
        counted = inr refl;
        waits = λ p. (
          refl,
          ground (arith, e),
          omega (arith, (delay_bounds (d.attempt + 1) (omega arith)).0),
          omega (arith, (delay_bounds (d.attempt + 1) (omega arith)).1),
        );
      }
  answered-IsAttempt other_error d' h = absurd (ground arith)

  pub settle-IsAttempt : (d' : Delivery) → settle w now d ≡ some d' → IsAttempt now d d'
  unfolding settle
  settle-IsAttempt d' h =
      branch
        (not
          (w.has_subscription d.tenant_id d.subscription_id && w.has_event d.tenant_id d.event_id))
        h
    where
      branch :
          (b : Bool)
          → (if b
              then some (record d {
                status = DeliveryStatus.failed;
                last_error = some (text "Subscription or event no longer exists");
              })
              else after_response now
                  (record d { attempt = d.attempt + 1 })
                  (w.post d.delivery_id (d.attempt + 1)))
            ≡ some d'
          → IsAttempt now d d'
      branch true k = subst (IsAttempt now d) (some-injective _ d' k) record {
        was_due = is_due_now;
        same_id = refl;
        counted = inl refl;
        waits = λ p. absurd (ground (arith, p));
      }
      branch false k = answered-IsAttempt (w.post d.delivery_id (d.attempt + 1)) d' k
