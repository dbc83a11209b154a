-- ===== src/Webhook/Triggers.antt =====
-- What `trigger` stores and queues.
use mathlib.Core.List.{Mem}
use paya.Prelude.{
  String, true, some, List, [], ◌∷◌, map, keep, mem-keep_of, mem_of_mem-keep, All, ◌≡◌, ◌↔◌, refl,
  ap, arith, ◌∙◌, str_eq_iff, Option-cases, inl, inr, subst,
}
use paya.Runtime.Action.{Result, ok, err, query_failed}
use paya.Webhook.Types.{Webhook}
use paya.Webhook.Queue.{WebhookEvent, QueueDatabase, World, is_active}
use paya.Webhook.Service.{
  Stamp, TriggerWebhookDto, new_event, is_of_merchant, subscribes, create_webhook_event,
  trigger_all, chosen, trigger,
}

module _ {Payload : Type 0} (db : QueueDatabase Payload) (render : Webhook → Payload → Payload)
    (stamp : String → Stamp) where
  -- The events that were stored still are.
  abbrev pub Kept : World db → World db → Type 0
  Kept w w' =
      (k : String) (e : WebhookEvent Payload)
      → db.events.find_one k w.events ≡ some e
      → db.events.find_one k w'.events ≡ some e

  -- The event is stored as it is created.
  abbrev pub Stored : TriggerWebhookDto Payload → World db → WebhookEvent Payload → Type 0
  Stored dto w e =
      (db.events.find_one e.id w.events ≡ some e)
      × (e.delivery_status ≡ "PENDING")
      × (e.retry_count ≡ 0)
      × (e.event_type ≡ dto.event_type)

  -- The jobs of the events on top of those that wait, the newest first.
  abbrev pub queued : List (WebhookEvent Payload) → List String → List String
  queued [] jobs = jobs
  queued (e ∷ es) jobs = queued es (e.id ∷ jobs)

  -- What the loop leaves, over the webhooks.
  abbrev pub Triggered :
      List Webhook
      → TriggerWebhookDto Payload
      → World db
      → Result (List (WebhookEvent Payload)) × World db
      → Type 0
  Triggered hs dto w (ok events, w') =
      Kept w w'
      × (map (λ e. e.webhook_id) events ≡ map (λ h. h.webhook_id) hs)
      × All (Stored dto w') events
      × (w'.jobs ≡ queued events w.jobs)
  Triggered hs dto w (err e, w') = Kept w w' × (e ≡ query_failed)

  inserted-Kept :
      (e : WebhookEvent Payload) (w w' : World db)
      → db.events.insert e w.events ≡ some w'.events
      → Kept w w'
  inserted-Kept e w w' done k x found = ground (
    arith,
    found,
    db.events.find_one-insert k e w.events w'.events done,
    db.events.insert-fresh e w.events w'.events done,
    str_eq_iff e.id k,
  )

  Stored-Kept :
      (dto : TriggerWebhookDto Payload) (e : WebhookEvent Payload) (w w' : World db)
      → Kept w w'
      → Stored dto w e
      → Stored dto w' e
  Stored-Kept dto e w w' kept (stored, pending, fresh, type) =
      (kept e.id e stored, pending, fresh, type)

  abbrev prepend :
      WebhookEvent Payload
      → Result (List (WebhookEvent Payload)) × World db
      → Result (List (WebhookEvent Payload)) × World db
  prepend e p = elim p.0 [ ok es ↦ (ok (e ∷ es), p.1) | err x ↦ (err x, p.1) ]

  Triggered-prepend :
      (h : Webhook) (hs : List Webhook) (dto : TriggerWebhookDto Payload) (w w2 : World db)
      (e : WebhookEvent Payload) (p : Result (List (WebhookEvent Payload)) × World db)
      → e.webhook_id ≡ h.webhook_id
      → w2.jobs ≡ e.id ∷ w.jobs
      → Kept w w2
      → Stored dto w2 e
      → Triggered hs dto w2 p
      → Triggered (h ∷ hs) dto w (prepend e p)
  Triggered-prepend h hs dto w w2 e (err x, w') same jobs kept stored (kept', refused) =
      (λ k y f. kept' k y (kept k y f), refused)
  Triggered-prepend h hs dto w w2 e (ok es, w') same jobs kept stored (kept', ids, all, queue) = (
    λ k y f. kept' k y (kept k y f),
    cc,
    (Stored-Kept dto e w2 w' kept' stored, all),
    queue ∙ ap (queued es) jobs,
  )

  trigger_all-Triggered :
      (hs : List Webhook) (dto : TriggerWebhookDto Payload) (w : World db)
      → Triggered hs dto w (trigger_all db render stamp hs dto.event_type dto.payload w)
  unfolding trigger_all create_webhook_event
  trigger_all-Triggered [] dto w = (λ k e h. h, refl, tt, refl)
  trigger_all-Triggered (h ∷ hs) dto w =
      let s = stamp h.webhook_id in
      let e : WebhookEvent Payload = new_event s h dto.event_type (render h dto.payload) in
      let w1 : World db = record w {
        webhooks = db.webhooks.save (record h { last_triggered_at = some s.now }) w.webhooks;
      } in
      let all = trigger_all db render stamp (h ∷ hs) dto.event_type dto.payload w in
      elim (Option-cases (db.events.insert e w.events)) [
        | inl refused ↦
            let eq : (err query_failed, w1) ≡ all = ground (arith, refused) in
            subst (Triggered (h ∷ hs) dto w) eq (λ k x f. f, refl)
        | inr (t, done) ↦
            let w2 : World db = record w1 { events = t; jobs = e.id ∷ w.jobs } in
            let kept = inserted-Kept e w w2 done in
            let rest = trigger_all db render stamp hs dto.event_type dto.payload w2 in
            let stored : db.events.find_one e.id t ≡ some e =
              ground
                (arith, db.events.find_one-insert e.id e w.events t done, str_eq_iff e.id e.id) in
            let eq : prepend e rest ≡ all = ground (arith, done) in
            subst (Triggered (h ∷ hs) dto w) eq (
              Triggered-prepend h hs dto w w2 e rest refl refl kept (stored, refl, refl, refl)
                (trigger_all-Triggered hs dto w2))
      ]

  -- The webhooks that an event is for.
  abbrev pub IsDue : TriggerWebhookDto Payload → World db → Webhook → Type 0
  IsDue dto w h =
      (db.webhooks.find_one h.webhook_id w.webhooks ≡ some h)
      × (is_active h.status ≡ true)
      × (is_of_merchant dto.merchant_id h ≡ true)
      × (subscribes dto.event_type h ≡ true)

  mem-chosen :
      (dto : TriggerWebhookDto Payload) (w : World db) (h : Webhook)
      → Mem h (chosen db render stamp dto w) ↔ IsDue dto w h
  mem-chosen dto w h =
      let active = db.webhooks.find_by (λ x. is_active x.status) w.webhooks in
      let own = keep (is_of_merchant dto.merchant_id) active in
      (
        λ m.
            let (m1, due) = mem_of_mem-keep (subscribes dto.event_type) h own m in
            let (m2, mine) = mem_of_mem-keep (is_of_merchant dto.merchant_id) h active m1 in
            let (stored, live) =
              (db.webhooks.mem-find_by (λ x. is_active x.status) h w.webhooks).0 m2 in
            (stored, live, mine, due),
        λ d.
            mem-keep_of (subscribes dto.event_type) h own
              (mem-keep_of (is_of_merchant dto.merchant_id) h active
                ((db.webhooks.mem-find_by (λ x. is_active x.status) h w.webhooks).1 (d.0, d.1)) d.2)
              d.3,
      )

  -- `trigger` that returns has created an event for each webhook that is stored and active, belongs to
  -- the merchant, if one is given, and subscribes to the type, and for no other; in the order of the
  -- query, each PENDING and with one job at the end of the queue. Whether it returns or a refused
  -- insert ends it early, no event that was stored has changed.
  pub trigger-Triggered :
      (dto : TriggerWebhookDto Payload) (w : World db)
      → Triggered (chosen db render stamp dto w) dto w (trigger db render stamp dto w)
        × ((h : Webhook) → Mem h (chosen db render stamp dto w) ↔ IsDue dto w h)
  unfolding trigger
  trigger-Triggered dto w =
      (trigger_all-Triggered (chosen db render stamp dto w) dto w, mem-chosen dto w)
