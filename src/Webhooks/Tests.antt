-- ===== src/Webhooks/Tests.antt =====
-- Runs of the webhook services, and their theorems at concrete inputs.
use dabdub.Prelude.{◌≡◌, refl, true, false, Option, none, some, List, [], ◌∷◌, All}
use dabdub.Platform.Entities.{Webhook, WebhookJob}
use dabdub.Platform.Actions.{Call, Env, Error, History}
use dabdub.Platform.Loops.{after}
use dabdub.Platform.Samples.{calm}
use dabdub.Webhooks.Dispatch.{first_job, Selected, dispatch, dispatch_outcome}
use dabdub.Webhooks.Delivery.{process}
use dabdub.Webhooks.Delivery.Laws.{queued, webhook_rows, IsHealthy, Requeued, process_requeues_once}

abbrev hook : Webhook
hook = record {
  id = "w1";
  merchant_id = "m1";
  url = "https://shop.example/hook";
  events = "payment.settled" ∷ [];
  secret = none;
  is_active = true;
  failure_count = 9;
  last_delivered_at = none;
}

abbrev other_hook : Webhook
other_hook = record hook { id = "w2"; events = "payment.refunded" ∷ [] }

-- The endpoint is down; all else works.
abbrev is_post : Call → Option Error
is_post (Call.post_webhook _) = some (Error.failure "connect ECONNREFUSED")
is_post _ = none

abbrev hooked : Env
hooked = record calm {
  throws = λ c h. is_post c;
  active_webhooks = λ m h. hook ∷ other_hook ∷ [];
  webhook = λ id h. some hook;
}

abbrev job : WebhookJob
job = first_job "payment.settled" "{}" hook

-- The tenth failure in a row deactivates the webhook, and the delivery is still tried again.
tenth :
    (webhook_rows (process hooked job []).1
      ≡ record hook { failure_count = 10; is_active = false } ∷ [])
    × (queued (process hooked job []).1 ≡ (record job { attempt_number = 2 }, 60_000) ∷ [])
unfolding process queued webhook_rows
tenth = (refl, refl)

abbrev dispatched : History
dispatched = Call.add_delivery job 0 ∷ Call.find_webhooks "m1" ∷ []

dispatch_outcome_example :
    (hooks : List Webhook) × Selected "payment.settled" (hook ∷ other_hook ∷ []) hooks
    × (dispatched
        ≡ after
            (λ w.
              Call.add_delivery
                (record {
                  webhook_id = w.id;
                  merchant_id = w.merchant_id;
                  url = w.url;
                  secret = elim w.secret [ none ↦ "" | some s ↦ s ];
                  event = "payment.settled";
                  body = "{}";
                  attempt_number = 1;
                })
                0)
            hooks
            (Call.find_webhooks "m1" ∷ []))
unfolding dispatch
dispatch_outcome_example = dispatch_outcome hooked "m1" "payment.settled" "{}" [] dispatched refl

process_requeues_once_example :
    Requeued hooked job [] (process hooked job []).1
    × All IsHealthy (webhook_rows (process hooked job []).1)
unfolding webhook_rows
process_requeues_once_example = process_requeues_once hooked job [] tt
