-- ===== src/Monitor/Confirmation.antt =====
-- `confirmPayment`, `queuePaymentConfirmedEmail` and `expireOldPayments` of
-- backend/src/stellar/stellar-monitor.service.ts.
pub mod Laws
pub mod Expiry
use dabdub.Prelude.{
  ℕ, Bool, true, false, Option, none, some, String, List, [], ◌∷◌, if◌then◌else◌, str_eq, truthy,
  round_div,
}
use dabdub.Platform.Entities.{Payment, PaymentStatus}
use dabdub.Platform.Actions.{
  Call, Value, Env, Action, pure, ask, ◌>>=◌, ◌>>◌, when, for_each, perform, now,
}
use dabdub.Monitor.Verification.{Chain, Paid}
use dabdub.Settlements.Creation.{initiate_settlement}

-- The payment of a verified transaction. The column of dollars has six places, that of lumens seven.
abbrev pub confirmed_by : (hash : String) → Paid → (now : ℕ) → Payment → Payment
confirmed_by hash paid t p =
    let usdc = str_eq paid.asset "USDC" in
    record p {
      status = PaymentStatus.confirmed;
      tx_hash = some hash;
      confirmed_at = some t;
      customer_wallet_address = paid.from;
      amount_usdc = if usdc then some (round_div paid.amount 10) else p.amount_usdc;
      amount_xlm = if usdc then p.amount_xlm else paid.amount;
    }

module _ (env : Env) where
  -- `queuePaymentConfirmedEmail`, for the merchant's address if there is one.
  abbrev pub email_merchant : Payment → Option String → Action (Unit {0})
  unfolding perform
  email_merchant p none = pure tt
  email_merchant p (some address) = do
    perform env (Call.read_preference p.merchant_id "payment.confirmed")
    enabled ← ask (env.email_enabled p.merchant_id "payment.confirmed")
    when enabled (perform env (Call.queue_email p.merchant_id "payment-confirmed" p.id))

  unfoldable pub queue_payment_confirmed_email : Payment → Action (Unit {0})
  unfolding email_merchant
  queue_payment_confirmed_email p = do
    address ← ask (env.merchant_email p.merchant_id)
    email_merchant p (truthy (some address))

  abbrev pub confirmed_event : (hash : String) → Paid → Payment → Call
  confirmed_event hash paid p = Call.dispatch p.merchant_id "payment.confirmed" (
      ("paymentId", Value.text p.id)
      ∷ ("reference", Value.text p.reference)
      ∷ ("txHash", Value.text hash)
      ∷ ("amount", Value.number paid.amount)
      ∷ ("asset", Value.text paid.asset)
      ∷ [])

  -- What follows the contract's confirmation, on the payment as it is then.
  unfoldable pub save_confirmed : (hash : String) → Paid → Payment → Action Payment
  unfolding perform queue_payment_confirmed_email initiate_settlement
  save_confirmed hash paid row = do
    perform env (Call.save_payment row)
    queue_payment_confirmed_email row
    perform env (confirmed_event hash paid row)
    initiate_settlement env row

  unfoldable pub confirm_payment : Payment → (hash : String) → Paid → Action Payment
  unfolding perform save_confirmed
  confirm_payment p hash paid = do
    perform env (Call.confirm_on_chain p.id hash paid.amount paid.asset paid.from)
    t ← now env
    save_confirmed hash paid (confirmed_by hash paid t p)

  abbrev pub expired_row : Payment → Payment
  expired_row p = record p { status = PaymentStatus.expired }

  unfoldable pub expire_payment : Payment → Action (Unit {0})
  unfolding perform
  expire_payment p = do
    perform env (Call.invoke_contract "expire" (p.id ∷ []))
    perform env (Call.save_payment (expired_row p))
    perform env (
        Call.dispatch p.merchant_id "payment.expired"
          (("paymentId", Value.text p.id) ∷ ("reference", Value.text p.reference) ∷ []))

  unfoldable pub expire_old_payments : Chain → Action (Unit {0})
  unfolding perform expire_payment
  expire_old_payments chain = do
    t ← now env
    perform env (Call.find_expired t)
    expired ← ask (chain.expired_payments t)
    for_each expired expire_payment
