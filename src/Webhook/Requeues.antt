-- ===== src/Webhook/Requeues.antt =====
-- How often an event is put back into the queue.
use paya.Prelude.{
  ℕ, ◌+◌, ◌-◌, ◌≤◌, String, true, Option, none, some, List, [], ◌∷◌, ◌≡◌, refl, arith, ap, ◌∙◌,
  str_eq, str_eq_iff, Option-cases, inl, inr, if◌then◌else◌,
}
use paya.Runtime.Action.{message_of, Error, Result, ok, err}
use paya.Webhook.Types.{Webhook, WebhookDelivery}
use paya.Webhook.Queue.{
  is_active, WebhookEvent, QueueDatabase, World, Attempt, next_retry, latest, of_event, deliver,
  bury, after_failure, after_delivery, conclude, process, process_event, process_found,
  process_delivery,
}

abbrev pub times : String → List String → ℕ
times j [] = 0
times j (i ∷ is) = if str_eq i j then 1 + times j is else times j is

module _ {Payload : Type 0} (db : QueueDatabase Payload) where
  -- How often the event can still fail before its last attempt.
  abbrev pub retries_of : Option Webhook → ℕ → ℕ
  retries_of none n = 0
  retries_of (some h) n = h.max_retries - 1 - n

  abbrev pub left : Option (WebhookEvent Payload) → db.webhooks.Table → ℕ
  left none t = 0
  left (some e) t = retries_of (db.webhooks.find_one e.webhook_id t) e.retry_count

  abbrev bound : String → World db → ℕ
  bound j w = times j w.jobs + left (db.events.find_one j w.events) w.webhooks

  bury-bound :
      (d : Option (WebhookDelivery Payload)) (w : World db) (j : String)
      → bound j (bury db d w).1 ≡ bound j w
  unfolding bury
  bury-bound none w j = refl
  bury-bound (some d) w j = refl

  -- A delivery leaves the events, the webhooks and the queue alone.
  abbrev Same : World db → World db → Type 0
  Same w w' = (w'.events ≡ w.events) × (w'.webhooks ≡ w.webhooks) × (w'.jobs ≡ w.jobs)

  deliver-Same :
      (a : Attempt) (e : WebhookEvent Payload) (h : Webhook) (w : World db)
      → Same w (deliver db a e h w).1
  unfolding deliver
  deliver-Same a e h w = ground arith

  -- A write of the event in place of one of the same webhook.
  save-left :
      (j : String) (e e' : WebhookEvent Payload) (w : World db)
      → db.events.find_one e.id w.events ≡ some e
      → e'.id ≡ e.id
      → e'.webhook_id ≡ e.webhook_id
      → left (db.events.find_one j (db.events.save e' w.events)) w.webhooks ≡ (
          if str_eq e.id j
          then retries_of (db.webhooks.find_one e.webhook_id w.webhooks) e'.retry_count
          else left (db.events.find_one j w.events) w.webhooks)
  save-left j e e' w found same_id same_webhook =
      ground (arith, found, same_id, same_webhook, db.events.find_one-save j e' w.events)

  failure-bound :
      (a : Attempt) (e : WebhookEvent Payload) (h : Webhook) (x : Error) (w : World db) (j : String)
      → db.events.find_one e.id w.events ≡ some e
      → db.webhooks.find_one e.webhook_id w.webhooks ≡ some h
      → bound j (after_failure db a e h x w).1 ≤ bound j w
  unfolding after_failure
  failure-bound a e h x w j found known =
      let failed : WebhookEvent Payload = record e {
        retry_count = e.retry_count + 1;
        error_message = some (message_of a.driver_message x);
      } in
      let lost : WebhookEvent Payload = record failed { delivery_status = "FAILED" } in
      let again : WebhookEvent Payload = record failed {
        delivery_status = "RETRYING";
        next_retry_at = some (next_retry a.now (e.retry_count + 1));
      } in
      let w1 : World db = record w { events = db.events.save lost w.events } in
      ground (
        arith,
        found,
        known,
        str_eq_iff e.id j,
        save-left j e lost w found refl refl,
        save-left j e again w found refl refl,
        bury-bound
            (latest
              (db.delivery_tables.deliveries.find_by (of_event e.event_id) w1.session.deliveries))
            w1 j,
      )

  delivery-bound :
      (a : Attempt) (e : WebhookEvent Payload) (d : WebhookDelivery Payload) (w : World db)
      (j : String)
      → db.events.find_one e.id w.events ≡ some e
      → bound j (after_delivery db a e d w).1 ≤ bound j w
  unfolding after_delivery
  delivery-bound a e d w j found =
      let done : WebhookEvent Payload = record e {
        delivery_status = "SUCCESS";
        delivered_at = some a.now;
        status_code = d.response_status_code;
      } in
      ground (arith, found, str_eq_iff e.id j, save-left j e done w found refl refl)

  conclude-bound :
      (a : Attempt) (e : WebhookEvent Payload) (h : Webhook) (r : Result (WebhookDelivery Payload))
      (w : World db) (j : String)
      → db.events.find_one e.id w.events ≡ some e
      → db.webhooks.find_one e.webhook_id w.webhooks ≡ some h
      → bound j (conclude db a e h r w).1 ≤ bound j w
  unfolding conclude
  conclude-bound a e h (ok d) w j found known = delivery-bound a e d w j found
  conclude-bound a e h (err x) w j found known = failure-bound a e h x w j found known

  sending-bound :
      (e : WebhookEvent Payload) (w : World db) (j : String)
      → db.events.find_one e.id w.events ≡ some e
      → let sending : WebhookEvent Payload = record e { delivery_status = "SENDING" } in
        bound j (record w { events = db.events.save sending w.events }) ≤ bound j w
  sending-bound e w j found =
      let sending : WebhookEvent Payload = record e { delivery_status = "SENDING" } in
      ground (arith, found, str_eq_iff e.id j, save-left j e sending w found refl refl)

  process-bound :
      (a : Attempt) (e : WebhookEvent Payload) (h : Webhook) (w : World db) (j : String)
      → db.events.find_one e.id w.events ≡ some e
      → db.webhooks.find_one e.webhook_id w.webhooks ≡ some h
      → bound j (process db a e h w).1 ≤ bound j w
  unfolding process
  process-bound a e h w j found known =
      let sending : WebhookEvent Payload = record e { delivery_status = "SENDING" } in
      let w1 : World db = record w { events = db.events.save sending w.events } in
      let sent = deliver db a sending h w1 in
      let stored : db.events.find_one e.id w1.events ≡ some sending =
        ground (arith, str_eq_iff e.id e.id, db.events.find_one-save e.id sending w.events) in
      let (same_events, same_webhooks, same_jobs) = deliver-Same a sending h w1 in
      ground (
        arith,
        same_events,
        same_webhooks,
        same_jobs,
        conclude-bound a sending h sent.0 sent.1 j
            (ap (db.events.find_one e.id) same_events ∙ stored)
            (ap (db.webhooks.find_one e.webhook_id) same_webhooks ∙ known),
        sending-bound e w j found,
      )

  delivery-call-bound :
      (id : String) (a : Attempt) (w : World db) (j : String)
      → bound j (process_delivery db id a w).1 ≤ bound j w
  unfolding process_delivery process_found process_event
  delivery-call-bound id a w j = elim (Option-cases (db.events.find_one id w.events)) [
    | inl lost ↦ ground (arith, lost)
    | inr (e, found) ↦
        let same : e.id ≡ id =
          (str_eq_iff e.id id).0 (db.events.key-find_one id e w.events found) in
        elim (Option-cases (db.webhooks.find_one e.webhook_id w.webhooks)) [
          | inl lost ↦ ground (arith, found, lost)
          | inr (h, known) ↦ ground (
            arith,
            found,
            known,
            process-bound a e h w j (ap (λ k. db.events.find_one k w.events) same ∙ found) known,
          )
        ]
  ]

  unfoldable pub process_all : List (String × Attempt) → World db → World db
  process_all [] w = w
  process_all ((id, a) ∷ rest) w = process_all rest (process_delivery db id a w).1

  process_all-bound :
      (jobs : List (String × Attempt)) (w : World db) (j : String)
      → bound j (process_all jobs w) ≤ bound j w
  unfolding process_all
  process_all-bound [] w j = omega arith
  process_all-bound ((id, a) ∷ jobs) w j =
      omega (
        arith,
        delivery-call-bound id a w j,
        process_all-bound jobs (process_delivery db id a w).1 j,
      )

  -- However the jobs are processed, and however their deliveries end, an event is put back into the
  -- queue at most as many times as one less than the retry limit of its webhook exceeds its retry
  -- count at the start, and never if the event or its webhook is not stored.
  pub times-le :
      (jobs : List (String × Attempt)) (w : World db) (j : String)
      → times j (process_all jobs w).jobs
        ≤ times j w.jobs + left (db.events.find_one j w.events) w.webhooks
  times-le jobs w j = omega (arith, process_all-bound jobs w j)

  -- The event and the state when the delivery starts.
  abbrev pub sending : WebhookEvent Payload → WebhookEvent Payload
  sending e = record e { delivery_status = "SENDING" }

  abbrev pub begun : WebhookEvent Payload → World db → World db
  begun e w = record w { events = db.events.save (sending e) w.events }

  -- What `processDelivery` makes of a delivery that returns, to an active webhook: the event is
  -- SUCCESS with the status code of the answer, whatever that is, and is not put back into the queue.
  pub process_delivery-accepts :
      (id : String) (a : Attempt) (w : World db) (e : WebhookEvent Payload) (h : Webhook)
      (d : WebhookDelivery Payload)
      → db.events.find_one id w.events ≡ some e
      → db.webhooks.find_one e.webhook_id w.webhooks ≡ some h
      → is_active h.status ≡ true
      → (deliver db a (sending e) h (begun e w)).0 ≡ ok d
      → let w' = (process_delivery db id a w).1 in
        (e' : WebhookEvent Payload) × (db.events.find_one id w'.events ≡ some e')
        × (e'.delivery_status ≡ "SUCCESS")
        × (e'.status_code ≡ d.response_status_code)
        × (e'.retry_count ≡ e.retry_count)
        × (w'.jobs ≡ w.jobs)
  unfolding process_delivery process_found process_event process after_delivery conclude
  process_delivery-accepts id a w e h d found known active returned =
      let done : WebhookEvent Payload = record e {
        delivery_status = "SUCCESS";
        delivered_at = some a.now;
        status_code = d.response_status_code;
      } in
      (
        done,
        ground (
          arith,
          found,
          known,
          active,
          returned,
          db.events.key-find_one id e w.events found,
          deliver-Same a (sending e) h (begun e w),
          db.events.find_one-save id done (begun e w).events,
        ),
        refl,
        refl,
        refl,
        ground (arith, found, known, active, returned, deliver-Same a (sending e) h (begun e w)),
      )
