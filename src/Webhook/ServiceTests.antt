-- ===== src/Webhook/ServiceTests.antt =====
-- The theorems on the webhook service at the tables of the queue's examples, and runs.
use mathlib.Core.List.{Mem}
use paya.Prelude.{String, none, some, [], ◌∷◌, ◌≡◌, ◌↔◌, refl}
use paya.Webhook.Types
use paya.Webhook.Requeues.{process_all}
use paya.Webhook.Service.{
  Stamp, TriggerWebhookDto, trigger, create_webhook_event, trigger_all, replay, deactivate,
}
use paya.Webhook.Triggers.{Triggered, IsDue, trigger-Triggered}
use paya.Webhook.Replays.{Replayed, replay-Replayed, deactivate-process_all}
use paya.Webhook.QueueTests.{db, webhook, event, world, jobs}

abbrev render : Types.Webhook → String → String
render h payload = payload

abbrev stamp : String → Stamp
stamp id = record { id = "2"; uuid = "EVT_2"; now = 30 }

abbrev paid : TriggerWebhookDto String
paid = record { event_type = "payment.paid"; payload = "paid"; merchant_id = some "m" }

one_job : (trigger db render stamp paid world).1.jobs ≡ "2" ∷ []
unfolding trigger trigger_all create_webhook_event
one_job = refl

trigger-Triggered_example :
    Triggered db render stamp (webhook ∷ []) paid world (trigger db render stamp paid world)
    × ((h : Types.Webhook) → Mem h (webhook ∷ []) ↔ IsDue db render stamp paid world h)
trigger-Triggered_example = trigger-Triggered db render stamp paid world

replay-Replayed_example : Replayed db "EVT_1" none world (replay db "EVT_1" none world)
replay-Replayed_example = replay-Replayed db "EVT_1" none world

deactivate-process_all_example : let w' = (deactivate db "w" world).1 in process_all db jobs w' ≡ w'
unfolding deactivate
deactivate-process_all_example =
    deactivate-process_all db "w" world (record webhook { status = Types.inactive }) jobs refl
      ((event, refl, refl), ((event, refl, refl), ((event, refl, refl), tt)))
