-- ===== src/Webhook/Delivery.antt =====
-- `deliverWebhook` and `moveToDeadLetter` of backend/src/webhook/webhook-delivery.service.ts.
use Prim.Native.String.{◌++◌ as str_append}
use paya.Prelude.{ℕ, ◌+◌, String, none, some, ◌∷◌, ◌&&◌, leb, ltb, if◌then◌else◌, Bool}
use paya.Runtime.Action.{
  Action, Error, ok, err, throw, gets, modify, message_of, try_catch, failure, query_failed, ◌>>◌,
}
use paya.Webhook.RateLimit.{check_rate_limit}
use paya.Webhook.Types.{
  DeliveryStatus, WebhookDelivery, Webhook, Outcome, answered, no_answer, Database, Session,
}

-- `response.status >= 200 && response.status < 300`
abbrev pub is_success : ℕ → Bool
is_success code = leb 200 code && ltb code 300

module _ {Payload : Type 0} where
  abbrev pub new_delivery : String → Payload → Webhook → WebhookDelivery Payload
  new_delivery delivery_id payload webhook = record {
    delivery_id = delivery_id;
    event_id = none;
    webhook_id = webhook.webhook_id;
    url = webhook.url;
    status = DeliveryStatus.pending;
    request_payload = payload;
    response_status_code = none;
    response_body = none;
    error_message = none;
    attempt_number = 1;
    delivered_at = none;
  }

module _ {Payload : Type 0} (db : Database Payload) where
  -- `logDelivery` on the delivery and the webhook at hand.
  abbrev pub log_delivery : String → String → Action (Session db) (Unit {0})
  log_delivery log_type message w =
      elim (db.insert_log
        (record {
          delivery_id = w.delivery.delivery_id;
          webhook_id = w.delivery.webhook_id;
          log_type = log_type;
          message = message;
        })
        w.logs) [ none ↦ (err query_failed, w) | some l ↦ (ok tt, record w { logs = l }) ]

  abbrev pub insert_delivery : Action (Session db) (Unit {0})
  insert_delivery w = elim (db.deliveries.insert w.delivery w.deliveries) [
    | none ↦ (err query_failed, w)
    | some t ↦ (ok tt, record w { deliveries = t })
  ]

  abbrev pub save_delivery : Action (Session db) (Unit {0})
  save_delivery = modify (λ w. record w { deliveries = db.deliveries.save w.delivery w.deliveries })

  -- `if (!this.checkRateLimit(…)) throw …`
  unfoldable pub check_rate : ℕ → Action (Session db) (Unit {0})
  check_rate now w =
      let (allowed, rates) =
        check_rate_limit w.webhook.webhook_id w.webhook.rate_limit_per_minute now w.rates in
      (if allowed then ok tt else err (failure "Rate limit exceeded"), record w { rates = rates })

  -- What follows the answer, up to the save. `now` is `new Date()`.
  unfoldable pub settle : ℕ → ℕ → String → String → Action (Session db) (Unit {0})
  settle now code text body =
      modify (λ w. record w {
        delivery = record (w.delivery) {
          response_status_code = some code;
          response_body = some body;
        };
      })
      >> (λ w.
          if is_success code
          then (modify (λ v. record v {
            delivery = record (v.delivery) {
              status = DeliveryStatus.success;
              delivered_at = some now;
            };
            webhook = record (v.webhook) {
              success_count = v.webhook.success_count + 1;
              last_success_at = some now;
            };
          })
                >> log_delivery "INFO" "Delivery successful")
              w
          else (modify (λ v. record v {
            delivery = record (v.delivery) {
              status = DeliveryStatus.failed;
              error_message = some (str_append "HTTP " text);
            };
            webhook = record (v.webhook) {
              failure_count = v.webhook.failure_count + 1;
              last_failure_at = some now;
            };
          })
                >> log_delivery "ERROR" "Delivery failed")
              w)

  -- The POST, of which `outcome` is the end, and what follows it.
  unfoldable pub send : ℕ → Outcome → Action (Session db) (Unit {0})
  send now (answered code text body) =
      modify (λ w. record w { posts = w.webhook.url ∷ w.posts }) >> settle now code text body
  send now (no_answer m) =
      modify (λ w. record w { posts = w.webhook.url ∷ w.posts }) >> throw (failure m)

  -- The body of the `try`.
  unfoldable pub attempt : ℕ → ℕ → Outcome → Action (Session db) (WebhookDelivery Payload)
  attempt limit_now now outcome = do
    check_rate limit_now
    send now outcome
    save_delivery
    gets (λ w. w.delivery)

  -- The body of the `catch`.
  unfoldable pub give_up : String → ℕ → Error → Action (Session db) (WebhookDelivery Payload)
  give_up driver_message now e = do
    modify (λ w. record w {
      delivery = record (w.delivery) {
        status = DeliveryStatus.failed;
        error_message = some (message_of driver_message e);
      };
      webhook = record (w.webhook) {
        failure_count = w.webhook.failure_count + 1;
        last_failure_at = some now;
      };
    })
    log_delivery "ERROR" "Delivery error"
    save_delivery
    throw e

  unfoldable pub deliver_webhook :
      String → String → Payload → ℕ → ℕ → Outcome → Action (Session db) (WebhookDelivery Payload)
  deliver_webhook driver_message uuid payload limit_now now outcome = do
    modify (λ w. record w { delivery = new_delivery uuid payload w.webhook })
    insert_delivery
    log_delivery "INFO" "Delivery started"
    try_catch (attempt limit_now now outcome) (give_up driver_message now)

  unfoldable pub move_to_dead_letter : Action (Session db) (Unit {0})
  move_to_dead_letter = do
    modify
        (λ w. record w { delivery = record (w.delivery) { status = DeliveryStatus.dead_letter } })
    save_delivery
    log_delivery "ERROR" "Moved to dead letter queue"
