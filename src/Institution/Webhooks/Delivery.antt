-- ===== src/Institution/Webhooks/Delivery.antt =====
-- One run over the deliveries that are due
-- (apps/institution-server/institution_server/webhooks.py, `deliver_once`, and `WebhookDelivery` in
-- models.py). A time is a number of microseconds in UTC; what the receivers answer and what other
-- tables hold are a `World`.
use Prim.Native.Nat.{◌^◌}
use predixa_learn.Prelude.{
  ℕ, ◌+◌, ◌*◌, Bool, true, false, not, ◌&&◌, Option, none, some, List, [], ◌∷◌, map, if◌then◌else◌,
  leb, ltb, keep, take, sort, Text, text, same,
}

pub data DeliveryStatus : Type 0 where
  pending delivered failed : DeliveryStatus

abbrev pub is_pending : DeliveryStatus → Bool
is_pending pending = true
is_pending _ = false

pub record Delivery : Type 0 where
  pub delivery_id : Text
  pub tenant_id : Text
  pub subscription_id : Text
  pub event_id : Text
  pub attempt : ℕ
  pub status : DeliveryStatus
  pub last_error : Option Text
  pub next_attempt_at : ℕ
  pub created_at : ℕ

-- What `client.post` and `raise_for_status` do: nothing, an httpx.HTTPError or another exception
pub data Response : Type 0 where
  accepted http_error other_error : Response

pub record World : Type 0 where
  -- The tenant has the subscription, or the event.
  pub has_subscription : Text → Text → Bool
  pub has_event : Text → Text → Bool
  -- What the receiver answers to an attempt
  pub post : Text → ℕ → Response

pub record Counts : Type 0 where
  pub delivered : ℕ
  pub pending : ℕ
  pub failed : ℕ

abbrev pub no_counts : Counts
no_counts = record { delivered = 0; pending = 0; failed = 0 }

abbrev pub count_one : DeliveryStatus → Counts → Counts
count_one pending c = record c { pending = c.pending + 1 }
count_one delivered c = record c { delivered = c.delivered + 1 }
count_one failed c = record c { failed = c.failed + 1 }

-- `delivery.status == "pending"` and `delivery.next_attempt_at <= now`
abbrev pub is_due : ℕ → Delivery → Bool
is_due now d = is_pending d.status && leb d.next_attempt_at now

abbrev pub min : ℕ → ℕ → ℕ
min a b = if ltb b a then b else a

-- `min(3600, 15 * (2 ** min(attempt, 8)))` in seconds
unfoldable pub delay : ℕ → ℕ
delay attempt = min 3600 (15 * 2 ^ min attempt 8)

-- What becomes of the delivery, whose attempt is counted; `none` where another exception goes on
abbrev pub after_response : ℕ → Delivery → Response → Option Delivery
after_response now d accepted =
    some (record d { status = DeliveryStatus.delivered; last_error = none })
after_response now d http_error = some (
    if leb 10 d.attempt
    then record d {
      status = DeliveryStatus.failed;
      last_error = some (text "Webhook delivery exhausted its retry policy");
    }
    else record d {
      next_attempt_at = now + delay d.attempt * 1000000;
      last_error = some (text "Webhook target is temporarily unavailable");
    })
after_response now d other_error = none

-- The body of the loop over the deliveries
unfoldable pub settle : World → ℕ → Delivery → Option Delivery
settle w now d =
    if not (w.has_subscription d.tenant_id d.subscription_id && w.has_event d.tenant_id d.event_id)
    then some (record d {
      status = DeliveryStatus.failed;
      last_error = some (text "Subscription or event no longer exists");
    })
    else after_response now (record d { attempt = d.attempt + 1 })
        (w.post d.delivery_id (d.attempt + 1))

-- The assignments to the row of a delivery
unfoldable pub put : Delivery → List Delivery → List Delivery
put d rows = map (λ r. if same r.delivery_id d.delivery_id then d else r) rows

abbrev pub with_settled : {A : Type 0} → Option Delivery → (Delivery → Option A) → Option A
with_settled none next = none
with_settled (some d) next = next d

unfoldable pub deliver_all :
    World → ℕ → List Delivery → List Delivery → Counts → Option (List Delivery × Counts)
deliver_all w now [] rows c = some (rows, c)
deliver_all w now (d ∷ ds) rows c =
    with_settled (settle w now d) λ d'. deliver_all w now ds (put d' rows) (count_one d'.status c)

-- The deliveries that are due, the oldest first, at most fifty
unfoldable pub due : ℕ → List Delivery → List Delivery
due now rows = take 50 (sort (λ (d : Delivery). d.created_at) (keep (is_due now) rows))

-- What is left when the session ends: the changes are kept only if they were committed.
abbrev pub committed :
    List Delivery → Option (List Delivery × Counts) → List Delivery × Option Counts
committed rows none = (rows, none)
committed rows (some (rows', c)) = (rows', some c)

-- `deliver_once`, whose first argument says whether there is a signing secret; the counts are `none`
-- where it raises
unfoldable pub deliver_once : Bool → World → ℕ → List Delivery → List Delivery × Option Counts
deliver_once false w now rows = (rows, some no_counts)
deliver_once true w now rows = committed rows (deliver_all w now (due now rows) rows no_counts)
