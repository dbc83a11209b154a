-- ===== src/Webhook/Replays.antt =====
-- What `replay` and `deactivate` mean for the deliveries that follow.
use mathlib.Core.List.{Mem, mem-cons_self}
use paya.Prelude.{
  ◌+◌, ◌-◌, ◌≤◌, String, Bool, true, false, Option, none, some, List, [], ◌∷◌, All, ◌≡◌, refl, sym,
  ap, arith, ◌∙◌, str_eq, str_eq_iff, if◌then◌else◌, Option-cases, inl, inr, subst,
}
use paya.Runtime.Action.{Result, ok, err}
use paya.Webhook.Types.{Webhook, inactive}
use paya.Webhook.Queue.{
  WebhookEvent, QueueDatabase, World, Attempt, is_active, process_delivery, process_found,
  process_event,
}
use paya.Webhook.Requeues.{times, process_all, times-le, left}
use paya.Webhook.Service.{
  first, is_for_webhook, renew, replay, deactivate, set_webhook_status, find_one_webhook,
}

module _ {Payload : Type 0} where
  mem-first :
      (l : List (WebhookEvent Payload)) (e : WebhookEvent Payload) → first l ≡ some e → Mem e l
  mem-first [] e h = cc
  mem-first (x ∷ l) e h = let same : x ≡ e = cc in subst (λ y. Mem y (x ∷ l)) same mem-cons_self

module _ {Payload : Type 0} (db : QueueDatabase Payload) where
  -- The events that `replay` looks for.
  abbrev pub is_sought : String → Option String → WebhookEvent Payload → Bool
  is_sought event_id webhook_id e =
      if str_eq e.event_id event_id then is_for_webhook webhook_id e else false

  -- Of the event that was found.
  abbrev pub Replayed :
      String → Option String → World db → Result (WebhookEvent Payload) × World db → Type 0
  Replayed event_id webhook_id w (ok e', w') =
      (e : WebhookEvent Payload) × (db.events.find_one e.id w.events ≡ some e)
      × (e.event_id ≡ event_id)
      × (is_for_webhook webhook_id e ≡ true)
      × (e' ≡ record e {
        delivery_status = "PENDING";
        retry_count = 0;
        next_retry_at = none;
        delivered_at = none;
        error_message = none;
        status_code = none;
      })
      × (w' ≡ record w { events = db.events.save e' w.events; jobs = e.id ∷ w.jobs })
  Replayed event_id webhook_id w (err x, w') = w' ≡ w

  -- `replay` that returns has found a stored event with the event id, and of the webhook if one is
  -- given; it has stored the event again as PENDING, with no retry counted and the results of earlier
  -- attempts cleared, and added one job for it. If it throws, nothing has changed.
  pub replay-Replayed :
      (event_id : String) (webhook_id : Option String) (w : World db)
      → Replayed event_id webhook_id w (replay db event_id webhook_id w)
  unfolding replay
  replay-Replayed event_id webhook_id w =
      let found = first (db.events.find_by (is_sought event_id none) w.events) in
      let sought = db.events.find_by (is_sought event_id webhook_id) w.events in
      elim (Option-cases found) [
        | inl absent ↦ ground (arith, absent)
        | inr (any_event, present) ↦ elim (Option-cases (first sought)) [
          | inl absent ↦ ground (arith, absent, present)
          | inr (e, here) ↦
              let w' : World db = record w {
                events = db.events.save (renew e) w.events;
                jobs = e.id ∷ w.jobs;
              } in
              let eq : (ok (renew e), w') ≡ replay db event_id webhook_id w =
                ground (arith, present, here) in
              let (stored, right) =
                (db.events.mem-find_by (is_sought event_id webhook_id) e w.events).0
                  (mem-first sought e here) in
              subst (Replayed event_id webhook_id w) eq (
                e,
                stored,
                ground (arith, right, str_eq_iff e.event_id event_id),
                ground (arith, right),
                refl,
                refl,
              )
        ]
      ]

  abbrev Bounded : WebhookEvent Payload → Webhook → World db → World db → Type 0
  Bounded e h w w' =
      times e.id w'.jobs + left db (db.events.find_one e.id w'.events) w'.webhooks
      ≤ times e.id w.jobs + 1 + (h.max_retries - 1)

  renew-Bounded :
      (e : WebhookEvent Payload) (h : Webhook) (w : World db)
      → db.webhooks.find_one e.webhook_id w.webhooks ≡ some h
      → Bounded e h w
          (record w { events = db.events.save (renew e) w.events; jobs = e.id ∷ w.jobs })
  renew-Bounded e h w known =
      ground (arith, known, db.events.find_one-save e.id (renew e) w.events, str_eq_iff e.id e.id)

  Replayed-Bounded :
      (event_id : String) (webhook_id : Option String) (w : World db)
      (p : Result (WebhookEvent Payload) × World db) (e' : WebhookEvent Payload) (h : Webhook)
      → Replayed event_id webhook_id w p
      → p.0 ≡ ok e'
      → db.webhooks.find_one e'.webhook_id w.webhooks ≡ some h
      → Bounded e' h w p.1
  Replayed-Bounded event_id webhook_id w (err x, w') e' h r returned known = cc
  Replayed-Bounded event_id webhook_id w (ok e1, w') e' h (e, _, _, _, renewed, after) returned
        known =
      let same : e1 ≡ e' = cc in
      let fresh : renew e ≡ e' = sym renewed ∙ same in
      let moved : record w { events = db.events.save (renew e) w.events; jobs = e.id ∷ w.jobs }
          ≡ w' =
        sym (
          after
          ∙ ap
              (λ (y : WebhookEvent Payload). record w {
                events = db.events.save y w.events;
                jobs = e.id ∷ w.jobs;
              })
              renewed) in
      let bounded = renew-Bounded e h w (
        ap (λ (y : WebhookEvent Payload). db.webhooks.find_one y.webhook_id w.webhooks) fresh
        ∙ known) in
      subst (λ (v : World db). Bounded e' h w v) moved
        (subst
          (λ (y : WebhookEvent Payload).
            Bounded y h w
              (record w { events = db.events.save (renew e) w.events; jobs = e.id ∷ w.jobs }))
          fresh bounded)

  -- However the jobs are processed after a replay that returned, and however their deliveries end, the
  -- event is put back into the queue at most as many times as one less than the retry limit of its
  -- webhook, whatever its retry count was before.
  pub replay-times-le :
      (event_id : String) (webhook_id : Option String) (w : World db) (e' : WebhookEvent Payload)
      (h : Webhook) (jobs : List (String × Attempt))
      → (replay db event_id webhook_id w).0 ≡ ok e'
      → db.webhooks.find_one e'.webhook_id w.webhooks ≡ some h
      → times e'.id (process_all db jobs (replay db event_id webhook_id w).1).jobs
        ≤ times e'.id w.jobs + 1 + (h.max_retries - 1)
  replay-times-le event_id webhook_id w e' h jobs returned known =
      let p = replay db event_id webhook_id w in
      omega (
        arith,
        times-le db jobs p.1 e'.id,
        Replayed-Bounded event_id webhook_id w p e' h (replay-Replayed event_id webhook_id w)
            returned known,
      )

  -- The jobs of events of one webhook.
  abbrev pub IsJobOf : String → World db → String × Attempt → Type 0
  IsJobOf webhook_id w job =
      (e : WebhookEvent Payload) × (db.events.find_one job.0 w.events ≡ some e)
      × (e.webhook_id ≡ webhook_id)

  idle :
      (id : String) (a : Attempt) (w : World db) (e : WebhookEvent Payload) (h : Webhook)
      → db.events.find_one id w.events ≡ some e
      → db.webhooks.find_one e.webhook_id w.webhooks ≡ some h
      → is_active h.status ≡ false
      → (process_delivery db id a w).1 ≡ w
  unfolding process_delivery process_found process_event
  idle id a w e h found known off = ground (arith, found, known, off)

  process_all-idle :
      (key : String) (jobs : List (String × Attempt)) (w : World db) (h : Webhook)
      → db.webhooks.find_one key w.webhooks ≡ some h
      → is_active h.status ≡ false
      → All (IsJobOf key w) jobs
      → process_all db jobs w ≡ w
  unfolding process_all
  process_all-idle key [] w h known off all = refl
  process_all-idle key ((id, a) ∷ jobs) w h known off ((e, found, same), all) =
      let still : (process_delivery db id a w).1 ≡ w =
        idle id a w e h found (ap (λ k. db.webhooks.find_one k w.webhooks) same ∙ known) off in
      ap (process_all db jobs) still ∙ process_all-idle key jobs w h known off all

  deactivate-stores :
      (id : String) (w : World db) (h : Webhook)
      → (deactivate db id w).0 ≡ ok h
      → (db.webhooks.find_one id (deactivate db id w).1.webhooks ≡ some h)
        × (is_active h.status ≡ false)
  unfolding deactivate set_webhook_status find_one_webhook
  deactivate-stores id w h returned = elim (Option-cases (db.webhooks.find_one id w.webhooks)) [
    | inl absent ↦ absurd (ground (arith, absent, returned))
    | inr (x, found) ↦
        let off : Webhook = record x { status = inactive } in
        let same : off ≡ h = ground (arith, found, returned) in
        (
          ground (
            arith,
            found,
            same,
            db.webhooks.key-find_one id x w.webhooks found,
            db.webhooks.find_one-save id off w.webhooks,
          ),
          ap (λ (y : Webhook). is_active y.status) (sym same),
        )
  ]

  -- After `deactivate` that returned, whatever jobs of events of the webhook are processed, nothing
  -- changes: none is posted, and the events stay in the status in which they are.
  pub deactivate-process_all :
      (id : String) (w : World db) (h : Webhook) (jobs : List (String × Attempt))
      → (deactivate db id w).0 ≡ ok h
      → let w' = (deactivate db id w).1 in All (IsJobOf id w') jobs → process_all db jobs w' ≡ w'
  deactivate-process_all id w h jobs returned all =
      let (stored, off) = deactivate-stores id w h returned in
      process_all-idle id jobs (deactivate db id w).1 h stored off all
