-- ===== src/Webhooks/Delivery.antt =====
-- `process` of backend/src/webhooks/webhook-delivery.processor.ts, with `notifyIfNeeded` of
-- backend/src/webhooks/webhook-failure-alert.service.ts. The signature over the body is left out, as
-- are response codes and the alert's text.
pub mod Laws
pub mod Schedule
pub mod Marks
use dabdub.Prelude.{
  ℕ, zero, suc, ◌+◌, Bool, true, false, Option, none, some, String, List, [], ◌∷◌, if◌then◌else◌,
  leb, ltb, ◌==◌, length, get_elem?, truthy,
}
use dabdub.Platform.Entities.{Webhook, WebhookJob, DeliveryStatus}
use dabdub.Platform.Actions.{
  Call, Env, Error, Action, ask, pure, ◌>>=◌, ◌>>◌, try_catch, when, perform, now,
}

-- ALERT_THRESHOLDS, by count, with their subjects.
abbrev pub alert_thresholds : List (ℕ × String)
alert_thresholds =
    (3, "Webhook endpoint failing")
    ∷ (7, "Webhook endpoint repeatedly failing — action required")
    ∷ (10, "Webhook endpoint deactivated after 10 failures")
    ∷ []

-- `ALERT_THRESHOLDS.find((t) => t.count === webhook.failureCount)`
abbrev pub find_threshold : ℕ → List (ℕ × String) → Option String
find_threshold count [] = none
find_threshold count ((n, subject) ∷ ts) =
    if n == count then some subject else find_threshold count ts

abbrev pub succeeded_row : (now : ℕ) → Webhook → Webhook
succeeded_row t w = record w { last_delivered_at = some t; failure_count = 0 }

abbrev pub counted_row : Webhook → Webhook
counted_row w =
    let count = w.failure_count + 1 in
    record w { failure_count = count; is_active = if leb 10 count then false else w.is_active }

-- `retrySchedule[attemptNumber - 1] ?? 0`
abbrev pub next_delay : List ℕ → (attempt_number : ℕ) → ℕ
next_delay schedule zero = 0
next_delay schedule (suc i) = elim (get_elem? schedule i) [ none ↦ 0 | some d ↦ d ]

-- `retryIndex + 1 < retrySchedule.length`
abbrev pub has_retry : List ℕ → (attempt_number : ℕ) → Bool
has_retry schedule attempt = ltb attempt (length schedule)

abbrev pub next_job : WebhookJob → WebhookJob
next_job job = record job { attempt_number = job.attempt_number + 1 }

module _ (env : Env) where
  abbrev pub notify : (email : String) → Option String → Action (Unit {0})
  unfolding perform
  notify email none = pure tt
  notify email (some subject) = perform env (Call.enqueue_email email subject)

  -- `notifyIfNeeded`, for a merchant with an e-mail address.
  abbrev pub notify_if_needed : Webhook → Option String → Action (Unit {0})
  unfolding notify
  notify_if_needed w none = pure tt
  notify_if_needed w (some email) = notify email (find_threshold w.failure_count alert_thresholds)

  abbrev pub notify_merchant : Webhook → Action (Unit {0})
  unfolding notify_if_needed
  notify_merchant w = do
    email ← ask (env.merchant_email w.merchant_id)
    notify_if_needed w (truthy (some email))

  abbrev pub save_success : Option Webhook → Action (Unit {0})
  unfolding perform
  save_success none = pure tt
  save_success (some w) = do t ← now env; perform env (Call.save_webhook (succeeded_row t w))

  abbrev pub save_failure : Option Webhook → Action (Unit {0})
  unfolding perform notify_merchant
  save_failure none = pure tt
  save_failure (some w) = do
    perform env (Call.save_webhook (counted_row w))
    perform env (Call.find_merchant w.merchant_id)
    notify_merchant (counted_row w)

  abbrev pub mark_webhook_success : (webhook_id : String) → Action (Unit {0})
  unfolding perform save_success
  mark_webhook_success id = do
    perform env (Call.find_webhook id)
    found ← ask (env.webhook id)
    save_success found

  unfoldable pub mark_webhook_failure : (webhook_id : String) → Action (Unit {0})
  unfolding perform save_failure
  mark_webhook_failure id = do
    perform env (Call.find_webhook id)
    found ← ask (env.webhook id)
    save_failure found

  -- The `try` block.
  unfoldable pub deliver : WebhookJob → Action (Unit {0})
  unfolding perform mark_webhook_success
  deliver job = do
    perform env (Call.post_webhook job)
    perform env (Call.save_delivery_log job DeliveryStatus.success 0)
    mark_webhook_success job.webhook_id

  abbrev pub retry : WebhookJob → Action (Unit {0})
  unfolding perform
  retry job =
      let schedule = env.webhook_retry_schedule in
      if has_retry schedule job.attempt_number
      then perform env (Call.add_delivery (next_job job) (next_delay schedule job.attempt_number))
      else pure tt

  -- The `catch` block.
  unfoldable pub on_delivery_error : WebhookJob → Action (Unit {0})
  unfolding perform mark_webhook_failure retry
  on_delivery_error job = do
    perform env (
        Call.save_delivery_log job DeliveryStatus.failure
          (next_delay env.webhook_retry_schedule job.attempt_number))
    mark_webhook_failure job.webhook_id
    retry job

  unfoldable pub process : WebhookJob → Action (Unit {0})
  unfolding deliver on_delivery_error
  process job = try_catch (deliver job) (λ _. on_delivery_error job)
