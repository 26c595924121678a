-- ===== src/Settlements/Transfer.antt =====
-- Paying a settlement out: `executeFiatTransfer`, `handlePartnerCallback` and `sendSettlementEmail`
-- of backend/src/settlements/settlements.service.ts.
pub mod Rows
pub mod Outcome
pub mod Payout
use Prim.Native.String
use dabdub.Prelude.{ℕ, Bool, Option, none, some, String, List, [], ◌∷◌, if◌then◌else◌}
use dabdub.Platform.Entities.{Payment, PaymentStatus, Settlement, SettlementStatus}
use dabdub.Platform.Actions.{
  Call, Value, AlertType, Error, message, Env, Action, ok, pure, throw, ◌>>=◌, ◌>>◌, try_catch,
  attempt, when, for_each, perform, now,
}

abbrev pub completed_row : ℕ → Settlement → Settlement
completed_row t s = record s { status = SettlementStatus.completed; completed_at = some t }

abbrev pub failed_row : String → Settlement → Settlement
failed_row reason s = record s { status = SettlementStatus.failed; failure_reason = some reason }

abbrev pub with_status : PaymentStatus → Payment → Payment
with_status st p = record p { status = st }

abbrev pub transferred : Option String → ℕ → Settlement → Settlement
transferred reference t s = record (completed_row t s) { partner_reference = reference }

module _ (env : Env) where
  unfoldable pub send_settlement_email :
      (merchant_id event template payment_id : String) → Action (Unit {0})
  unfolding perform
  send_settlement_email merchant event template payment = do
    perform env (Call.read_preference merchant event)
    enabled ← λ h. (ok (env.email_enabled merchant event h), h)
    when enabled (
        try_catch
          (do
            perform env (Call.find_merchant merchant)
            perform env (Call.queue_email merchant template payment))
          (λ _. pure tt))

  -- `invalidateAnalyticsForMerchant`
  unfoldable pub invalidate_analytics_for_merchant : String → Action (Unit {0})
  unfolding perform
  invalidate_analytics_for_merchant merchant = do
    perform env (Call.del_pattern (String.◌++◌ (String.◌++◌ "analytics:" merchant) ":*"))
    perform env (Call.del_pattern "analytics:admin:*")

  unfoldable pub settle_payment : Settlement → Payment → Action (Unit {0})
  unfolding perform
  settle_payment s p = do
    perform env (Call.invoke_contract "settle" (p.id ∷ s.id ∷ []))
    perform env (Call.save_payment (with_status PaymentStatus.settled p))

  unfoldable pub announce_settled : Settlement → Payment → Action (Unit {0})
  unfolding perform send_settlement_email
  announce_settled s p = do
    perform env (
        Call.dispatch s.merchant_id "payment.settled" (
          ("paymentId", Value.text p.id)
          ∷ ("settlementId", Value.text s.id)
          ∷ ("amount", Value.number p.amount_usd)
          ∷ []))
    send_settlement_email s.merchant_id "payment.settled" "settlement-completed" p.id

  unfoldable pub fail_payment : Payment → Action (Unit {0})
  unfolding perform
  fail_payment p = perform env (Call.save_payment (with_status PaymentStatus.failed p))

  unfoldable pub announce_failed : Settlement → String → Payment → Action (Unit {0})
  unfolding perform send_settlement_email
  announce_failed s reason p = do
    perform env (
        Call.dispatch s.merchant_id "payment.failed"
          (("paymentId", Value.text p.id) ∷ ("reason", Value.text reason) ∷ []))
    send_settlement_email s.merchant_id "settlement.failed" "payment-failed" p.id

  -- What both methods do with a settlement that the partner has paid out.
  unfoldable pub complete : Settlement → List Payment → Action (Unit {0})
  unfolding perform
  complete s payments = do
    perform env (Call.save_settlement s)
    for_each payments (settle_payment s)
    invalidate_analytics_for_merchant s.merchant_id
    for_each payments (announce_settled s)

  -- What both methods do with a settlement that has failed.
  unfoldable pub fail : Settlement → (reason : String) → List Payment → Action (Unit {0})
  unfolding perform
  fail s reason payments = do
    perform env (Call.save_settlement (failed_row reason s))
    for_each payments fail_payment
    for_each payments (announce_failed s reason)

  -- The `catch` of `executeFiatTransfer`. It overwrites the status of every payment, so it does
  -- not matter which of them the `try` had marked as settled.
  unfoldable pub on_transfer_error : Settlement → List Payment → Error → Action (Unit {0})
  unfolding perform
  on_transfer_error s payments e = do
    perform env (Call.raise_alert AlertType.settlement_failure (String.◌++◌ "settlement:" s.id))
    fail s (message e) payments

  -- The `try` from the partner's answer on: the settlement object is already changed then, which
  -- the `catch` sees.
  unfoldable pub after_transfer : Settlement → List Payment → Action (Unit {0})
  after_transfer s payments = do
    reference ← λ h. (ok (env.transfer_reference h), h)
    t ← now env
    let s' = transferred reference t s
    try_catch (complete s' payments) (on_transfer_error s' payments)

  unfoldable pub execute_fiat_transfer : Settlement → List Payment → Action (Unit {0})
  unfolding perform
  execute_fiat_transfer s [] =
      throw (Error.failure (String.◌++◌ (String.◌++◌ "Settlement " s.id) " has no linked payments"))
  execute_fiat_transfer s (p ∷ ps) =
      attempt (perform env (Call.post_transfer s.net_amount_usd s.merchant_id s.id))
        (λ _. after_transfer s (p ∷ ps)) (on_transfer_error s (p ∷ ps))

  -- The partner's word on a transfer: `status` and `failureReason` of the callback's body.
  unfoldable pub handle_partner_callback :
      Option (Settlement × List Payment)
      → (success : Bool) → (failure_reason : Option String) → Action (Unit {0})
  handle_partner_callback none success reason = pure tt
  handle_partner_callback (some (s, payments)) success reason =
      let paid : Action (Unit {0}) = do t ← now env; complete (completed_row t s) payments
      in let why : String = elim reason [ some r ↦ r | none ↦ "Partner reported failure" ] in
        if success then paid else fail s why payments
