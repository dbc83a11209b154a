-- ===== src/Webhook/Queue.antt =====
-- `processDelivery`, `addDeliveryJob` and `calculateNextRetry` of
-- backend/src/webhook/webhook-queue.service.ts. The queue is the list of the jobs that were added,
-- the newest first; an error of the queue itself is not modelled.
use paya.Prelude.{
  ℕ, ◌+◌, ◌*◌, ◌^◌, String, Bool, true, false, Option, none, some, List, [], ◌∷◌, leb, str_eq,
  if◌then◌else◌,
}
use paya.Runtime.Action.{
  message_of, Action, Error, Result, ok, err, pure, gets, throw, failure, modify, when, ◌>>=◌, ◌>>◌,
}
use paya.Runtime.Repository.{Repository}
use paya.Webhook.Types.{WebhookStatus, active, WebhookDelivery, Webhook, Outcome, Database, Session}
use paya.Webhook.Delivery.{deliver_webhook, move_to_dead_letter}

pub record WebhookEvent (Payload : Type 0) : Type 0 where
  pub id : String
  pub event_id : String
  pub webhook_id : String
  pub event_type : String
  pub payload : Payload
  pub delivery_status : String
  pub retry_count : ℕ
  pub next_retry_at : Option ℕ
  pub delivered_at : Option ℕ
  pub error_message : Option String
  pub status_code : Option ℕ

-- The tables of the queue service besides those of the delivery service.
pub record QueueDatabase (Payload : Type 0) : Type 1 where
  pub delivery_tables : Database Payload
  pub events : Repository String (WebhookEvent Payload) str_eq (λ e. e.id)
  pub webhooks : Repository String Webhook str_eq (λ w. w.webhook_id)

pub record World {Payload : Type 0} (db : QueueDatabase Payload) : Type 0 where
  pub session : Session db.delivery_tables
  pub events : db.events.Table
  pub webhooks : db.webhooks.Table
  pub jobs : List String

-- What a call reads besides the tables: the id of the delivery, the error of
-- `generateEventSignature` if it throws, the message of a database error, the
-- end of the POST, and the clock.
pub record Attempt : Type 0 where
  pub uuid : String
  pub signature_error : Option String
  pub driver_message : String
  pub outcome : Outcome
  pub limit_now : ℕ
  pub now : ℕ

abbrev pub is_active : WebhookStatus → Bool
is_active active = true
is_active _ = false

abbrev pub min : ℕ → ℕ → ℕ
min a b = if leb a b then a else b

-- `calculateNextRetry`
unfoldable pub next_retry : ℕ → ℕ → ℕ
next_retry now retry_count = now + min (1000 * 2 ^ retry_count) 3600000

module _ {Payload : Type 0} where
  -- `where: { eventId }, order: { attemptNumber: 'DESC' }`, of the deliveries of the event.
  abbrev pub latest : List (WebhookDelivery Payload) → Option (WebhookDelivery Payload)
  latest [] = none
  latest (d ∷ ds) = elim (latest ds) [
    | none ↦ some d
    | some e ↦ if leb e.attempt_number d.attempt_number then some d else some e
  ]

  abbrev pub of_event : String → WebhookDelivery Payload → Bool
  of_event id d = elim d.event_id [ none ↦ false | some e ↦ str_eq e id ]

module _ {Payload : Type 0} (db : QueueDatabase Payload) where
  abbrev pub save_event : WebhookEvent Payload → Action (World db) (Unit {0})
  save_event e = modify (λ w. record w { events = db.events.save e w.events })

  abbrev pub add_delivery_job : String → Action (World db) (Unit {0})
  add_delivery_job id = modify (λ w. record w { jobs = id ∷ w.jobs })

  -- A call of the delivery service.
  abbrev pub on_session : {A : Type 0} → Action (Session db.delivery_tables) A → Action (World db) A
  on_session m w = let (r, s) = m w.session in (r, record w { session = s })

  -- The signature, which is of no other use here than that it may throw, and then the delivery.
  abbrev pub signed : {A : Type 0} → Option String → Action (World db) A → Action (World db) A
  signed none m = m
  signed (some e) m = throw (failure e)

  unfoldable pub deliver :
      Attempt → WebhookEvent Payload → Webhook → Action (World db) (WebhookDelivery Payload)
  deliver a event webhook = signed a.signature_error (
      on_session (
        modify (λ s. record s { webhook = webhook })
        >> deliver_webhook db.delivery_tables a.driver_message a.uuid event.payload a.limit_now
            a.now a.outcome))

  -- `if (failedDelivery) await this.deliveryService.moveToDeadLetter(failedDelivery)`
  unfoldable pub bury : Option (WebhookDelivery Payload) → Action (World db) (Unit {0})
  bury none = pure tt
  bury (some d) =
      on_session (modify (λ s. record s { delivery = d }) >> move_to_dead_letter db.delivery_tables)

  -- The `catch`: the last attempt, or another one.
  unfoldable pub after_failure :
      Attempt → WebhookEvent Payload → Webhook → Error → Action (World db) (Unit {0})
  after_failure a event webhook e =
      let failed : WebhookEvent Payload = record event {
        retry_count = event.retry_count + 1;
        error_message = some (message_of a.driver_message e);
      } in
      if leb webhook.max_retries failed.retry_count
      then (save_event (record failed { delivery_status = "FAILED" })
          >> (gets (λ w. latest (
                db.delivery_tables.deliveries.find_by (of_event event.event_id)
                  w.session.deliveries))
              >>= bury))
      else (save_event (record failed {
        delivery_status = "RETRYING";
        next_retry_at = some (next_retry a.now failed.retry_count);
      })
          >> add_delivery_job event.id)

  -- The rest of the `try`.
  unfoldable pub after_delivery :
      Attempt → WebhookEvent Payload → WebhookDelivery Payload → Action (World db) (Unit {0})
  after_delivery a event d = save_event (record event {
    delivery_status = "SUCCESS";
    delivered_at = some a.now;
    status_code = d.response_status_code;
  })

  unfoldable pub conclude :
      Attempt
      → WebhookEvent Payload
      → Webhook
      → Result (WebhookDelivery Payload)
      → Action (World db) (Unit {0})
  conclude a event webhook (ok d) = after_delivery a event d
  conclude a event webhook (err e) = after_failure a event webhook e

  -- `event` is found, and so is its webhook.
  unfoldable pub process : Attempt → WebhookEvent Payload → Webhook → Action (World db) (Unit {0})
  process a event webhook =
      let sending : WebhookEvent Payload = record event { delivery_status = "SENDING" } in
      save_event sending
      >> (λ w. let (r, w') = deliver a sending webhook w in conclude a sending webhook r w')

  -- The early returns.
  unfoldable pub process_event :
      Attempt → WebhookEvent Payload → Option Webhook → Action (World db) (Unit {0})
  process_event a event none = pure tt
  process_event a event (some webhook) = when (is_active webhook.status) (process a event webhook)

  unfoldable pub process_found :
      Attempt → Option (WebhookEvent Payload) → Action (World db) (Unit {0})
  process_found a none = pure tt
  process_found a (some event) = do
    webhook ← gets (λ w. db.webhooks.find_one event.webhook_id w.webhooks)
    process_event a event webhook

  unfoldable pub process_delivery : String → Attempt → Action (World db) (Unit {0})
  process_delivery id a = do
    event ← gets (λ w. db.events.find_one id w.events)
    process_found a event
