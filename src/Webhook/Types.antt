-- ===== src/Webhook/Types.antt =====
-- The entities of backend/src/webhook/entities, over any type of payloads. The generated keys of the
-- deliveries and the logs, headers, templates, the details of the logs, the measured response times and the columns
-- that no handler here writes are left out.
use paya.Prelude.{ℕ, String, Option, List, str_eq}
use paya.Runtime.Repository.{Repository}
use paya.Webhook.RateLimit.{RateLimitMap}

pub data DeliveryStatus : Type 0 where
  pending sending success failed retrying dead_letter : DeliveryStatus

pub data WebhookStatus : Type 0 where
  active inactive disabled : WebhookStatus

pub record WebhookDelivery (Payload : Type 0) : Type 0 where
  pub delivery_id : String
  pub event_id : Option String
  pub webhook_id : String
  pub url : String
  pub status : DeliveryStatus
  pub request_payload : Payload
  pub response_status_code : Option ℕ
  pub response_body : Option String
  pub error_message : Option String
  pub attempt_number : ℕ
  pub delivered_at : Option ℕ

pub record Webhook : Type 0 where
  pub webhook_id : String
  pub merchant_id : String
  pub url : String
  pub status : WebhookStatus
  pub events : List String
  pub secret : String
  pub max_retries : ℕ
  pub rate_limit_per_minute : ℕ
  pub success_count : ℕ
  pub failure_count : ℕ
  pub last_success_at : Option ℕ
  pub last_failure_at : Option ℕ
  pub last_triggered_at : Option ℕ

pub record WebhookDeliveryLog : Type 0 where
  pub delivery_id : String
  pub webhook_id : String
  pub log_type : String
  pub message : String

-- How a POST ends: with an answer, given by its status, the text `${status}: ${statusText}` and its
-- body as a text, or with an error.
pub data Outcome : Type 0 where
  answered : ℕ → String → String → Outcome
  no_answer : String → Outcome

-- The tables of the delivery service. An insert of a log row can be refused.
pub record Database (Payload : Type 0) : Type 1 where
  pub deliveries : Repository String (WebhookDelivery Payload) str_eq (λ d. d.delivery_id)
  pub Logs : Type 0
  pub insert_log : WebhookDeliveryLog → Logs → Option Logs

-- What a delivery reads and writes: the tables, the map of the rate limit, the addresses that were
-- posted to, the newest first, and the objects `delivery` and `webhook`.
pub record Session {Payload : Type 0} (db : Database Payload) : Type 0 where
  pub deliveries : db.deliveries.Table
  pub logs : db.Logs
  pub rates : RateLimitMap
  pub posts : List String
  pub delivery : WebhookDelivery Payload
  pub webhook : Webhook
