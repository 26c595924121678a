-- ===== src/Webhooks/Delivery/Marks.antt =====
-- What a failed delivery does to the webhook and to its merchant.
use dabdub.Prelude.{
  ℕ, zero, suc, ◌<◌, ◌≡◌, ◌⊎◌, ◌↔◌, inl, inr, true, none, some, String, arith, Option-cases,
}
use dabdub.Platform.Entities.{Webhook}
use dabdub.Webhooks.Delivery.{find_threshold, alert_thresholds, counted_row, succeeded_row}

-- The failures that a merchant is told about.
abbrev pub IsTold : ℕ → Type 0
IsTold n = (n ≡ 3) ⊎ (n ≡ 7) ⊎ (n ≡ 10)

-- An alert is found exactly for the third, the seventh and the tenth failure in a row.
find_threshold_iff :
    (n : ℕ)
    → (IsTold n → (subject : String) × (find_threshold n alert_thresholds ≡ some subject))
      × (¬ IsTold n → find_threshold n alert_thresholds ≡ none)
find_threshold_iff n = (
  λ told. elim (Option-cases (find_threshold n alert_thresholds)) [
    | inl quiet ↦ absurd (ground arith)
    | inr (subject, due) ↦ (subject, due)
  ],
  λ untold. ground arith,
)

-- The rows of a webhook that fails `n` times in a row.
abbrev pub fail_times : ℕ → Webhook → Webhook
fail_times zero w = w
fail_times (suc n) w = counted_row (fail_times n w)

-- A webhook that is active and has just delivered is still active after `n` failures in a row exactly
-- if `n` is below ten, and its count is `n`.
fail_times_deactivates :
    (n t : ℕ) (w : Webhook)
    → w.is_active ≡ true
    → let w' = fail_times n (succeeded_row t w) in
      (w'.failure_count ≡ n) × ((w'.is_active ≡ true) ↔ (n < 10))
fail_times_deactivates zero t w active = ground arith
fail_times_deactivates (suc n) t w active =
    let before = fail_times_deactivates n t w active in ground arith
