-- ===== src/Institution/Webhooks/Tests.antt =====
-- Runs of the delivery loop at concrete tables.
use predixa_learn.Prelude.{
  ℕ, ◌≡◌, refl, true, none, some, List, [], ◌∷◌, Apart, any, keep, sort, insert, Text, text, same,
}
use predixa_learn.Institution.Webhooks.Delivery.{
  DeliveryStatus, Delivery, Response, accepted, http_error, other_error, World, settle, put,
  deliver_all, due, delay, deliver_once,
}
use predixa_learn.Institution.Webhooks.Picks.{IsOther}
use predixa_learn.Institution.Webhooks.Retries.{IsRun, deliver_once-IsRun}
use predixa_learn.Institution.Webhooks.Failures.{raises, deliver_once-raises}

abbrev delivery : Text → ℕ → DeliveryStatus → ℕ → ℕ → Delivery
delivery id n s next created = record {
  delivery_id = id;
  tenant_id = text "t";
  subscription_id = text "s";
  event_id = text "e";
  attempt = n;
  status = s;
  last_error = none;
  next_attempt_at = next;
  created_at = created;
}

abbrev rows : List Delivery
rows =
    delivery (text "a") 2 DeliveryStatus.pending 5 1
    ∷ delivery (text "b") 9 DeliveryStatus.pending 0 0
    ∷ delivery (text "c") 1 DeliveryStatus.pending 900 2
    ∷ []

abbrev world : Response → World
world r = record { has_subscription = λ t s. true; has_event = λ t e. true; post = λ id n. r }

-- The third attempt is repeated after two minutes, the tenth is the last.
retry_run : deliver_once true (world http_error) 10 rows ≡ (
  record (delivery (text "a") 3 DeliveryStatus.pending 120000010 1) {
    last_error = some (text "Webhook target is temporarily unavailable");
  }
      ∷ record (delivery (text "b") 10 DeliveryStatus.failed 0 0) {
        last_error = some (text "Webhook delivery exhausted its retry policy");
      }
      ∷ delivery (text "c") 1 DeliveryStatus.pending 900 2
      ∷ [],
  some (record { delivered = 0; pending = 1; failed = 1 }),
)
unfolding deliver_once deliver_all settle put due keep sort insert delay same
retry_run = refl

rows-Apart : Apart IsOther rows
unfolding same
rows-Apart = ((refl, (refl, tt)), ((refl, tt), (tt, tt)))

deliver_once-IsRun_example : IsRun 10 rows (deliver_once true (world accepted) 10 rows)
deliver_once-IsRun_example = deliver_once-IsRun true (world accepted) 10 rows rows-Apart

one_raises : any (λ d. raises (settle (world other_error) 10 d)) (due 10 rows) ≡ true
unfolding any settle due keep sort insert
one_raises = refl

deliver_once-raises_example : deliver_once true (world other_error) 10 rows ≡ (rows, none)
deliver_once-raises_example = deliver_once-raises (world other_error) 10 rows one_raises
