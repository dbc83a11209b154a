-- ===== src/Webhook/QueueTests.antt =====
-- The theorems on deliveries at concrete tables, and a run of the queue.
use paya.Prelude.{◌+◌, ◌≤◌, String, none, some, List, [], ◌∷◌, ◌≡◌, refl, str_eq, str_eq_iff}
use paya.Runtime.ListTable.{list_repository}
use paya.Runtime.Text.{String-set}
use paya.Webhook.RateLimit.{rate_data, check_rate_limit}
use paya.Webhook.Types
use paya.Webhook.Types.{active, answered, no_answer}
use paya.Webhook.Delivery.{check_rate, send, attempt, give_up, deliver_webhook}
use paya.Webhook.Settlement.{Settled, deliver_webhook-Settled}
use paya.Webhook.Queue.{
  WebhookEvent, QueueDatabase, World, Attempt, deliver, process_delivery, after_failure, bury,
  conclude, process, process_event, process_found,
}
use paya.Webhook.Requeues.{times, process_all, times-le}

pub delivery_set : IsSet (Types.WebhookDelivery String)
delivery_set = hlevel String-set

pub event_set : IsSet (WebhookEvent String)
event_set = hlevel String-set

pub webhook_set : IsSet Types.Webhook
webhook_set = hlevel String-set

abbrev pub delivery_db : Types.Database String
delivery_db = record {
  deliveries = list_repository str_eq str_eq_iff (λ d. d.delivery_id) delivery_set;
  Logs = List Types.WebhookDeliveryLog;
  insert_log = λ l t. some (l ∷ t);
}

abbrev pub db : QueueDatabase String
db = record {
  delivery_tables = delivery_db;
  events = list_repository str_eq str_eq_iff (λ e. e.id) event_set;
  webhooks = list_repository str_eq str_eq_iff (λ w. w.webhook_id) webhook_set;
}

abbrev pub webhook : Types.Webhook
webhook = record {
  webhook_id = "w";
  merchant_id = "m";
  url = "shop";
  status = active;
  events = "payment.paid" ∷ [];
  secret = "s";
  max_retries = 2;
  rate_limit_per_minute = 5;
  success_count = 4;
  failure_count = 1;
  last_success_at = none;
  last_failure_at = none;
  last_triggered_at = none;
}

abbrev pub event : WebhookEvent String
event = record {
  id = "1";
  event_id = "EVT_1";
  webhook_id = "w";
  event_type = "payment.paid";
  payload = "paid";
  delivery_status = "PENDING";
  retry_count = 0;
  next_retry_at = none;
  delivered_at = none;
  error_message = none;
  status_code = none;
}

abbrev answer : Types.Outcome
answer = answered 500 "500: Internal Server Error" "oops"

abbrev failed_delivery : Types.WebhookDelivery String
failed_delivery = record {
  delivery_id = "d1";
  event_id = none;
  webhook_id = "w";
  url = "shop";
  status = Types.DeliveryStatus.failed;
  request_payload = "paid";
  response_status_code = some 500;
  response_body = some "oops";
  error_message = some "HTTP 500: Internal Server Error";
  attempt_number = 1;
  delivered_at = none;
}

abbrev session : Types.Session delivery_db
session = record {
  deliveries = [];
  logs = [];
  rates = λ id. none;
  posts = [];
  delivery = failed_delivery;
  webhook = webhook;
}

abbrev pub world : World db
world = record { session = session; events = event ∷ []; webhooks = webhook ∷ []; jobs = [] }

abbrev server_error : Attempt
server_error = record {
  uuid = "d1";
  signature_error = none;
  driver_message = "refused";
  outcome = answer;
  limit_now = 10;
  now = 20;
}

abbrev pub no_server : String → Attempt
no_server uuid = record server_error { uuid = uuid; outcome = no_answer "ECONNREFUSED" }

abbrev pub jobs : List (String × Attempt)
jobs = ("1", no_server "d1") ∷ ("1", no_server "d2") ∷ ("1", no_server "d3") ∷ []

deliver_webhook-Settled_example :
    Settled delivery_db answer session
      (deliver_webhook delivery_db "refused" "d1" "paid" 10 20 answer session)
deliver_webhook-Settled_example =
    deliver_webhook-Settled delivery_db "refused" "d1" "paid" 10 20 answer session

times-le_example : times "1" (process_all db jobs world).jobs ≤ 0 + 1
times-le_example = times-le db jobs world "1"

-- Of two attempts without an answer, the first is put back into the queue and the second is not.
two_attempts :
    (process_all db (("1", no_server "d1") ∷ ("1", no_server "d2") ∷ []) world).jobs ≡ "1" ∷ []
unfolding process_all process_delivery process_found process_event process conclude after_failure
    bury deliver deliver_webhook attempt give_up send check_rate check_rate_limit rate_data
two_attempts = refl
