-- ===== src/Webhooks/Delivery/Laws.antt =====
-- What a run of the delivery job guarantees.
use dabdub.Prelude.{
  ℕ, ◌<◌, ◌≡◌, ◌⊎◌, inl, inr, Bool, true, false, if◌then◌else◌, ltb→lt, Option, none, some, String,
  List, [], ◌∷◌, refl, arith, All, length, truthy, ap,
}
use dabdub.Platform.Entities.{Webhook, WebhookJob, DeliveryStatus}
use dabdub.Platform.Actions.{Call, Env, Action, History, perform, ◌>>◌, ◌>>=◌, pure, ask}
use dabdub.Platform.Loops.{Keeps, >>-Keeps}
use dabdub.Platform.Runs.{perform-either, perform-Keeps, Leads, >>-Leads, try_catch-Leads}
use dabdub.Webhooks.Delivery.{
  find_threshold, alert_thresholds, counted_row, succeeded_row, next_delay, next_job, has_retry,
  notify, notify_if_needed, notify_merchant, save_success, save_failure, mark_webhook_success,
  mark_webhook_failure, deliver, on_delivery_error, process, retry,
}

-- The jobs put into the queue, the newest first, with their delays.
unfoldable pub queued : History → List (WebhookJob × ℕ)
queued [] = []
queued (Call.add_delivery job delay ∷ h) = (job, delay) ∷ queued h
queued (_ ∷ h) = queued h

-- The rows of webhooks written, the newest first.
unfoldable pub webhook_rows : History → List Webhook
webhook_rows [] = []
webhook_rows (Call.save_webhook w ∷ h) = w ∷ webhook_rows h
webhook_rows (_ ∷ h) = webhook_rows h

-- A webhook that is active has failed less than ten times in a row.
abbrev pub IsHealthy : Webhook → Type 0
IsHealthy w = w.is_active ≡ true → w.failure_count < 10

counted_row-IsHealthy : (w : Webhook) → IsHealthy (counted_row w)
counted_row-IsHealthy w active = ground arith

-- The rows are healthy, and the queue is as given.
abbrev Books : List (WebhookJob × ℕ) → History → Type 0
Books jobs h = (queued h ≡ jobs) × All IsHealthy (webhook_rows h)

module _ (env : Env) (jobs : List (WebhookJob × ℕ)) where
  notify-Keeps : (email : String) (due : Option String) → Keeps (Books jobs) (notify env email due)
  unfolding notify queued webhook_rows
  notify-Keeps email none = λ h k. k
  notify-Keeps email (some subject) =
      perform-Keeps (Books jobs) env (Call.enqueue_email email subject) (λ h k. k)

  notify_if_needed-Keeps :
      (w : Webhook) (to : Option String) → Keeps (Books jobs) (notify_if_needed env w to)
  unfolding notify_if_needed
  notify_if_needed-Keeps w none = λ h k. k
  notify_if_needed-Keeps w (some to) =
      notify-Keeps to (find_threshold w.failure_count alert_thresholds)

  save-Keeps : (w : Webhook) → IsHealthy w → Keeps (Books jobs) (perform env (Call.save_webhook w))
  unfolding queued webhook_rows
  save-Keeps w good =
      perform-Keeps (Books jobs) env (Call.save_webhook w) (λ h k. (k.0, (good, k.1)))

  -- A call that concerns neither, and what follows it.
  other->>-Keeps :
      (c : Call) (rest : Action (Unit {0}))
      → ((h : History) → Books jobs h → Books jobs (c ∷ h))
      → Keeps (Books jobs) rest
      → Keeps (Books jobs) (perform env c >> rest)
  other->>-Keeps c rest step later =
      >>-Keeps (Books jobs) (perform env c) (λ _. rest) (perform-Keeps (Books jobs) env c step)
        (λ _. later)

  save_failure-Keeps : (found : Option Webhook) → Keeps (Books jobs) (save_failure env found)
  unfolding queued webhook_rows save_failure notify_merchant
  save_failure-Keeps none = λ h k. k
  save_failure-Keeps (some w) =
      let notify = notify_merchant env (counted_row w) in
      >>-Keeps (Books jobs) (perform env (Call.save_webhook (counted_row w)))
        (λ _. perform env (Call.find_merchant w.merchant_id) >> notify)
        (save-Keeps (counted_row w) (counted_row-IsHealthy w))
        (λ _.
          other->>-Keeps (Call.find_merchant w.merchant_id) notify (λ h k. k)
            (λ h.
              notify_if_needed-Keeps (counted_row w)
                (truthy (some (env.merchant_email w.merchant_id h))) h))

  save_success-Keeps : (found : Option Webhook) → Keeps (Books jobs) (save_success env found)
  unfolding save_success
  save_success-Keeps none = λ h k. k
  save_success-Keeps (some w) =
      λ h. save-Keeps (succeeded_row (env.now h) w) (λ active. omega arith) h

  mark_webhook_failure-Keeps : (id : String) → Keeps (Books jobs) (mark_webhook_failure env id)
  unfolding mark_webhook_failure queued webhook_rows
  mark_webhook_failure-Keeps id =
      other->>-Keeps (Call.find_webhook id) (ask (env.webhook id) >>= save_failure env) (λ h k. k)
        (λ h. save_failure-Keeps (env.webhook id h) h)

  deliver-Keeps : (job : WebhookJob) → Keeps (Books jobs) (deliver env job)
  unfolding deliver mark_webhook_success queued webhook_rows
  deliver-Keeps job =
      let mark = mark_webhook_success env job.webhook_id in
      let log = Call.save_delivery_log job DeliveryStatus.success 0 in
      other->>-Keeps (Call.post_webhook job) (perform env log >> mark) (λ h k. k)
        (other->>-Keeps log mark (λ h k. k)
          (other->>-Keeps (Call.find_webhook job.webhook_id)
            (ask (env.webhook job.webhook_id) >>= save_success env) (λ h k. k)
            (λ h. save_success-Keeps (env.webhook job.webhook_id h) h)))

-- At most one job has been added: the next attempt, after its delay, if the schedule goes on.
abbrev pub Requeued : Env → WebhookJob → History → History → Type 0
Requeued env job h h' =
    (queued h' ≡ queued h)
    ⊎ ((job.attempt_number < length env.webhook_retry_schedule)
        × (queued h'
            ≡ (next_job job, next_delay env.webhook_retry_schedule job.attempt_number) ∷ queued h))

-- The queue has grown as `Requeued` says, and the rows are healthy.
abbrev Grown : Env → WebhookJob → History → History → Type 0
Grown env job h h' = Requeued env job h h' × All IsHealthy (webhook_rows h')

module _ (env : Env) (job : WebhookJob) (h0 : History) where
  retry-Grown : (h : History) → Books (queued h0) h → Grown env job h0 (retry env job h).1
  unfolding retry queued webhook_rows
  retry-Grown h k =
      go (has_retry env.webhook_retry_schedule job.attempt_number)
        (λ more. ltb→lt job.attempt_number (length env.webhook_retry_schedule) more)
    where
      delay : ℕ
      delay = next_delay env.webhook_retry_schedule job.attempt_number

      go :
          (c : Bool)
          → (c ≡ true → job.attempt_number < length env.webhook_retry_schedule)
          → Grown env job h0
              ((if c then perform env (Call.add_delivery (next_job job) delay) else pure tt) h).1
      go false more = (inl k.0, k.1)
      go true more =
          perform-either (Grown env job h0) env (Call.add_delivery (next_job job) delay) h
            (inr (more refl, ap (λ js. (next_job job, delay) ∷ js) k.0), k.1) (inl k.0, k.1)

  on_delivery_error-Grown : Leads (Books (queued h0)) (on_delivery_error env job) (Grown env job h0)
  unfolding on_delivery_error queued webhook_rows
  on_delivery_error-Grown =
      let log =
        Call.save_delivery_log job DeliveryStatus.failure
          (next_delay env.webhook_retry_schedule job.attempt_number) in
      let mark = mark_webhook_failure env job.webhook_id in
      >>-Leads (Books (queued h0)) (Grown env job h0) (λ h k. (inl k.0, k.1)) (perform env log)
        (mark >> retry env job) (perform-Keeps (Books (queued h0)) env log (λ h k. k))
        (>>-Leads (Books (queued h0)) (Grown env job h0) (λ h k. (inl k.0, k.1)) mark
          (retry env job) (mark_webhook_failure-Keeps env (queued h0) job.webhook_id) retry-Grown)

-- However a run of the delivery job ends, it has put at most one job into the queue, the next
-- attempt after its delay, and that only while the attempt's number is below the schedule's length.
-- If the webhook rows written before were healthy, so are those written by it: a row that is active
-- has failed less than ten times in a row.
pub process_requeues_once :
    (env : Env) (job : WebhookJob) (h : History)
    → All IsHealthy (webhook_rows h)
    → let h' = (process env job h).1 in Requeued env job h h' × All IsHealthy (webhook_rows h')
unfolding process
process_requeues_once env job h good =
    try_catch-Leads (Books (queued h)) (Grown env job h) (λ k b. (inl b.0, b.1)) (deliver env job)
      (λ _. on_delivery_error env job) (deliver-Keeps env (queued h) job)
      (λ _. on_delivery_error-Grown env job h) h (refl, good)
