-- ===== src/Webhook/Service.antt =====
-- backend/src/webhook/webhook.service.ts. `render` is `applyPayloadTemplate` with the template of the
-- webhook, which is not modelled. The generated ids and the time of an event are a stamp for each
-- webhook. The types of events are texts.
use Prim.Native.String.{◌++◌ as str_append}
use paya.Prelude.{
  ℕ, String, Bool, true, false, Option, none, some, List, [], ◌∷◌, any, keep, get_or, str_eq,
  if◌then◌else◌,
}
use paya.Runtime.Action.{
  Action, ok, err, not_found, query_failed, pure, gets, or_throw, modify, ◌>>=◌, ◌>>◌,
}
use paya.Runtime.Text.{or_text}
use paya.Webhook.Types.{WebhookStatus, active, inactive, Webhook}
use paya.Webhook.Queue.{WebhookEvent, QueueDatabase, World, is_active, save_event, add_delivery_job}

-- The columns that the model keeps.
pub record CreateWebhookDto : Type 0 where
  pub merchant_id : String
  pub url : String
  pub status : Option WebhookStatus
  pub events : List String
  pub secret : Option String
  pub max_retries : Option ℕ
  pub rate_limit_per_minute : Option ℕ

-- `PartialType(CreateWebhookDto)`
pub record UpdateWebhookDto : Type 0 where
  pub merchant_id : Option String
  pub url : Option String
  pub status : Option WebhookStatus
  pub events : Option (List String)
  pub secret : Option String
  pub max_retries : Option ℕ
  pub rate_limit_per_minute : Option ℕ

pub record TriggerWebhookDto (Payload : Type 0) : Type 0 where
  pub event_type : String
  pub payload : Payload
  pub merchant_id : Option String

pub record Stamp : Type 0 where
  pub id : String
  pub uuid : String
  pub now : ℕ

-- `new Webhook` with the defaults of the columns. `generated` is the text of `randomBytes`.
abbrev pub new_webhook : CreateWebhookDto → String → String → Webhook
new_webhook dto uuid generated = record {
  webhook_id = uuid;
  merchant_id = dto.merchant_id;
  url = dto.url;
  status = get_or dto.status inactive;
  events = dto.events;
  secret = or_text dto.secret generated;
  max_retries = get_or dto.max_retries 3;
  rate_limit_per_minute = get_or dto.rate_limit_per_minute 0;
  success_count = 0;
  failure_count = 0;
  last_success_at = none;
  last_failure_at = none;
  last_triggered_at = none;
}

-- `Object.assign(webhook, updateWebhookDto)`
abbrev pub assign : UpdateWebhookDto → Webhook → Webhook
assign dto w = record w {
  merchant_id = get_or dto.merchant_id w.merchant_id;
  url = get_or dto.url w.url;
  status = get_or dto.status w.status;
  events = get_or dto.events w.events;
  secret = get_or dto.secret w.secret;
  max_retries = get_or dto.max_retries w.max_retries;
  rate_limit_per_minute = get_or dto.rate_limit_per_minute w.rate_limit_per_minute;
}

-- `if (merchantId)`: the empty text counts as missing.
abbrev pub is_of_merchant : Option String → Webhook → Bool
is_of_merchant none w = true
is_of_merchant (some m) w = if str_eq m "" then true else str_eq w.merchant_id m

abbrev pub subscribes : String → Webhook → Bool
subscribes event_type w = any (λ e. str_eq e event_type) w.events

module _ {Payload : Type 0} where
  abbrev pub first : List (WebhookEvent Payload) → Option (WebhookEvent Payload)
  first [] = none
  first (e ∷ es) = some e

  -- `if (webhookId)`
  abbrev pub is_for_webhook : Option String → WebhookEvent Payload → Bool
  is_for_webhook none e = true
  is_for_webhook (some id) e = if str_eq id "" then true else str_eq e.webhook_id id

  abbrev pub new_event : Stamp → Webhook → String → Payload → WebhookEvent Payload
  new_event stamp webhook event_type payload = record {
    id = stamp.id;
    event_id = stamp.uuid;
    webhook_id = webhook.webhook_id;
    event_type = event_type;
    payload = payload;
    delivery_status = "PENDING";
    retry_count = 0;
    next_retry_at = none;
    delivered_at = none;
    error_message = none;
    status_code = none;
  }

  -- The event as `replay` stores it.
  abbrev pub renew : WebhookEvent Payload → WebhookEvent Payload
  renew e = record e {
    delivery_status = "PENDING";
    retry_count = 0;
    next_retry_at = none;
    delivered_at = none;
    error_message = none;
    status_code = none;
  }

module _ {Payload : Type 0} (db : QueueDatabase Payload) where
  abbrev pub save_webhook : Webhook → Action (World db) (Unit {0})
  save_webhook h = modify (λ w. record w { webhooks = db.webhooks.save h w.webhooks })

  abbrev pub insert_webhook : Webhook → Action (World db) (Unit {0})
  insert_webhook h w = elim (db.webhooks.insert h w.webhooks) [
    | none ↦ (err query_failed, w)
    | some t ↦ (ok tt, record w { webhooks = t })
  ]

  abbrev pub insert_event : WebhookEvent Payload → Action (World db) (Unit {0})
  insert_event e w = elim (db.events.insert e w.events) [
    | none ↦ (err query_failed, w)
    | some t ↦ (ok tt, record w { events = t })
  ]

  -- `findOne`
  unfoldable pub find_one_webhook : String → Action (World db) Webhook
  find_one_webhook id = do
    found ← gets (λ w. db.webhooks.find_one id w.webhooks)
    or_throw found (not_found (str_append "Webhook with ID " (str_append id " not found")))

  unfoldable pub create : CreateWebhookDto → String → String → Action (World db) Webhook
  create dto uuid generated = do
    let webhook = new_webhook dto uuid generated
    insert_webhook webhook
    pure webhook

  unfoldable pub update : String → UpdateWebhookDto → Action (World db) Webhook
  unfolding find_one_webhook
  update id dto = do
    webhook ← find_one_webhook id
    save_webhook (assign dto webhook)
    pure (assign dto webhook)

  unfoldable pub set_webhook_status : WebhookStatus → String → Action (World db) Webhook
  unfolding find_one_webhook
  set_webhook_status status id = do
    webhook ← find_one_webhook id
    let changed : Webhook = record webhook { status = status }
    save_webhook changed
    pure changed

  unfoldable pub activate : String → Action (World db) Webhook
  unfolding set_webhook_status
  activate = set_webhook_status active

  unfoldable pub deactivate : String → Action (World db) Webhook
  unfolding set_webhook_status
  deactivate = set_webhook_status inactive

  -- The row of `findOne({ where: { eventId } })`, and with the webhook too.
  abbrev pub find_event : String → Option String → Action (World db) (Option (WebhookEvent Payload))
  find_event event_id webhook_id = gets (λ w. first (
      db.events.find_by
        (λ e. if str_eq e.event_id event_id then is_for_webhook webhook_id e else false) w.events))

  -- Without a webhook the second query is the first one again.
  unfoldable pub replay : String → Option String → Action (World db) (WebhookEvent Payload)
  replay event_id webhook_id = do
    any_event ← find_event event_id none
    e ←
        or_throw any_event
          (not_found (str_append "Event with ID " (str_append event_id " not found")))
    for_webhook ← find_event event_id webhook_id
    event ← or_throw for_webhook (
        not_found (
          str_append "Event with ID " (
            str_append event_id
              (str_append " for webhook " (str_append (get_or webhook_id "") " not found")))))
    save_event db (renew event)
    add_delivery_job db event.id
    pure (renew event)

  module _ (render : Webhook → Payload → Payload) (stamp : String → Stamp) where
    unfoldable pub create_webhook_event :
        Webhook → String → Payload → Action (World db) (WebhookEvent Payload)
    create_webhook_event webhook event_type payload = do
      let s = stamp webhook.webhook_id
      let event = new_event s webhook event_type (render webhook payload)
      save_webhook (record webhook { last_triggered_at = some s.now })
      insert_event event
      pure event

    -- The loop of `trigger`.
    unfoldable pub trigger_all :
        List Webhook → String → Payload → Action (World db) (List (WebhookEvent Payload))
    unfolding create_webhook_event
    trigger_all [] event_type payload = pure []
    trigger_all (webhook ∷ webhooks) event_type payload = do
      event ← create_webhook_event webhook event_type payload
      add_delivery_job db event.id
      events ← trigger_all webhooks event_type payload
      pure (event ∷ events)

    -- The webhooks that are chosen. If there are none, the loop is run through at once.
    abbrev pub chosen : TriggerWebhookDto Payload → World db → List Webhook
    chosen dto w = keep (subscribes dto.event_type) (
        keep (is_of_merchant dto.merchant_id)
          (db.webhooks.find_by (λ h. is_active h.status) w.webhooks))

    unfoldable pub trigger :
        TriggerWebhookDto Payload → Action (World db) (List (WebhookEvent Payload))
    unfolding trigger_all
    trigger dto w = trigger_all (chosen dto w) dto.event_type dto.payload w
