-- ===== src/Webhook/Settlement.antt =====
-- How a delivery ends.
use Prim.Native.String.{◌++◌ as str_append}
use paya.Prelude.{
  ℕ, ◌+◌, String, some, ◌∷◌, ◌≡◌, ◌⊎◌, inl, inr, arith, str_eq_iff, Option-cases, if◌then◌else◌,
}
use paya.Runtime.Action.{Result, ok, err}
use paya.Webhook.Types.{
  DeliveryStatus, WebhookDelivery, Outcome, answered, no_answer, Database, Session,
}
use paya.Webhook.Delivery.{
  is_success, new_delivery, check_rate, settle, send, attempt, give_up, deliver_webhook,
}

module _ {Payload : Type 0} (db : Database Payload) where
  abbrev pub Settled : Outcome → Session db → Result (WebhookDelivery Payload) × Session db → Type 0
  Settled (no_answer m) w (ok d, w') = ⊥
  Settled (answered code text body) w (ok d, w') =
      (w'.posts ≡ w.webhook.url ∷ w.posts)
      × (db.deliveries.find_one d.delivery_id w'.deliveries ≡ some d)
      × (d.attempt_number ≡ 1)
      × (d.response_status_code ≡ some code)
      × (d.status ≡ (if is_success code then DeliveryStatus.success else DeliveryStatus.failed))
      × (w'.webhook.success_count
          ≡ (if is_success code then w.webhook.success_count + 1 else w.webhook.success_count))
      × (w'.webhook.failure_count
          ≡ (if is_success code then w.webhook.failure_count else w.webhook.failure_count + 1))
  Settled outcome w (err e, w') = (w'.posts ≡ w.posts) ⊎ (w'.posts ≡ w.webhook.url ∷ w.posts)

  -- `deliverWebhook` that returns had an answer and has posted to the webhook once. It returns the
  -- row that it stored, with the attempt number 1 and the status of the answer: SUCCESS if this is
  -- from 200 to 299, with the success count of the webhook raised by one, else FAILED, with the
  -- failure count raised by one. A call that throws has posted once or not at all.
  pub deliver_webhook-Settled :
      (driver_message uuid : String) (payload : Payload) (limit_now now : ℕ) (outcome : Outcome)
      (w : Session db)
      → Settled outcome w (deliver_webhook db driver_message uuid payload limit_now now outcome w)
  unfolding deliver_webhook attempt give_up send settle check_rate
  deliver_webhook-Settled driver_message uuid payload limit_now now (answered code text body) w =
      let d : WebhookDelivery Payload = record (new_delivery uuid payload w.webhook) {
        response_status_code = some code;
        response_body = some body;
      } in
      let good : WebhookDelivery Payload = record d {
        status = DeliveryStatus.success;
        delivered_at = some now;
      } in
      let bad : WebhookDelivery Payload = record d {
        status = DeliveryStatus.failed;
        error_message = some (str_append "HTTP " text);
      } in
      elim (Option-cases
        (db.deliveries.insert (new_delivery uuid payload w.webhook) w.deliveries)) [
          | inl refused ↦ ground (arith, refused)
          | inr (t, done) ↦ ground (
            arith,
            done,
            str_eq_iff uuid uuid,
            db.deliveries.find_one-save uuid good t,
            db.deliveries.find_one-save uuid bad t,
          )
        ]
  deliver_webhook-Settled driver_message uuid payload limit_now now (no_answer m) w = ground arith
