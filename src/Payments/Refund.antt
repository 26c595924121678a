-- ===== src/Payments/Refund.antt =====
-- `confirmPayment` and `refund` of backend/src/payments/payments.service.ts.
pub mod Laws
pub mod Confirming
use Prim.Native.String
use dabdub.Prelude.{
  truthy, ℕ, zero, suc, ◌*◌, Bool, true, false, not, Option, none, some, String, if◌then◌else◌, ltb,
  round_div, decimal, last_segment, [], ◌∷◌,
}
use dabdub.Platform.Entities.{Payment, PaymentStatus}
use dabdub.Platform.Actions.{
  Call, Value, Error, message, Env, Action, ask, pure, throw, ◌>>=◌, ◌>>◌, attempt, try_catch,
  perform, now,
}

abbrev pub is_settled : PaymentStatus → Bool
is_settled PaymentStatus.settled = true
is_settled _ = false

abbrev pub confirmed_row : (customer : String) → (now : ℕ) → Payment → Payment
confirmed_row customer t p = record p {
  status = PaymentStatus.confirmed;
  customer_wallet_address = some customer;
  confirmed_at = some t;
}

abbrev pub expired_row : Payment → Payment
expired_row p = record p { status = PaymentStatus.expired }

-- `RefundPaymentDto`
pub record RefundPaymentDto : Type 0 where
  pub amount_usd : Option ℕ  -- millionths
  pub reason : String

-- `dto.amountUsd || payment.amountUsd`
abbrev pub refund_amount : Option ℕ → Payment → ℕ
refund_amount none p = p.amount_usd
refund_amount (some zero) p = p.amount_usd
refund_amount (some (suc n)) p = suc n

-- The asset a refund is sent in, and its amount in ten-millionths of that asset.
pub record Transfer : Type 0 where
  pub asset : String
  pub amount : ℕ

abbrev pub in_xlm : (refund : ℕ) → Payment → Transfer
in_xlm refund p = record { asset = "XLM"; amount = round_div (p.amount_xlm * refund) p.amount_usd }

-- `payment.amountUsdc` is read as text, so that an amount of zero is one as well.
abbrev pub transfer_of : (refund : ℕ) → Payment → Option ℕ → Transfer
transfer_of refund p none = in_xlm refund p
transfer_of refund p (some n) = record {
  asset = "USDC";
  amount = round_div (n * 10 * refund) p.amount_usd;
}

abbrev pub refunded_row : RefundPaymentDto → (tx_hash : String) → (now : ℕ) → Payment → Payment
refunded_row dto hash t p = record p {
  status = PaymentStatus.refunded;
  refund_amount_usd = some (refund_amount dto.amount_usd p);
  refund_reason = some dto.reason;
  refund_tx_hash = some hash;
  refunded_at = some t;
}

-- The e-mail to the customer, if the payment has an address.
abbrev pub email_subject : Payment → String
email_subject p = String.◌++◌ "Refund processed: " p.reference

-- What the `catch` of `refund` throws.
abbrev pub refund_error : Error → Error
refund_error e = Error.bad_request (String.◌++◌ "Stellar refund failed: " (message e))

module _ (env : Env) where
  -- The `catch` of `confirmPayment`.
  abbrev pub on_confirm_error : Payment → Error → Action Payment
  unfolding perform
  on_confirm_error p (Error.payment_expired m) =
      perform env (Call.save_payment (expired_row p)) >> throw (Error.bad_request m)
  on_confirm_error p e = throw e

  -- What follows the contract's confirmation.
  abbrev pub confirm_row : (customer : String) → Payment → Action Payment
  unfolding perform
  confirm_row customer p = do
    t ← now env
    perform env (Call.save_payment (confirmed_row customer t p))
    pure (confirmed_row customer t p)

  unfoldable pub confirm_payment : Option Payment → (id customer : String) → Action Payment
  unfolding perform
  confirm_payment none id customer = throw (Error.not_found "Payment not found")
  confirm_payment (some p) id customer =
      attempt (perform env (Call.confirm_on_contract id customer)) (λ _. confirm_row customer p)
        (on_confirm_error p)

  abbrev pub email_customer : Payment → (merchant_id : String) → Option String → Action (Unit {0})
  unfolding perform
  email_customer p merchant none = pure tt
  email_customer p merchant (some address) = do
    name ← ask (env.business_name merchant)
    perform env (Call.enqueue_email address (String.◌++◌ "Refund received from " name))

  -- The webhook and the e-mails about a refund that has been saved.
  unfoldable pub announce_refund :
      Payment → (merchant_id : String) → RefundPaymentDto → (tx_hash : String) → Action (Unit {0})
  unfolding perform
  announce_refund p merchant dto hash = do
    perform env (
        Call.dispatch merchant "payment.refunded" (
          ("paymentId", Value.text p.id)
          ∷ ("reference", Value.text p.reference)
          ∷ ("refundAmountUsd", Value.number (refund_amount dto.amount_usd p))
          ∷ ("refundTxHash", Value.text hash)
          ∷ ("reason", Value.text dto.reason)
          ∷ []))
    recipient ← ask (env.merchant_email merchant)
    perform env (Call.enqueue_email recipient (email_subject p))
    email_customer p merchant (truthy p.customer_email)

  -- What follows the transfer in the `try` block.
  unfoldable pub record_refund :
      Payment → (merchant_id : String) → RefundPaymentDto → Action Payment
  unfolding announce_refund perform
  record_refund p merchant dto = do
    hash ← ask env.tx_hash
    t ← now env
    let saved : Payment = refunded_row dto hash t p
    perform env (Call.save_payment saved)
    announce_refund p merchant dto hash
    pure saved

  -- The `try` block, with the customer's wallet and the transfer decided on.
  unfoldable pub send_refund :
      Payment
      → (merchant_id : String) → RefundPaymentDto
      → (wallet : String) → Transfer
      → Action Payment
  unfolding record_refund perform
  send_refund p merchant dto wallet transfer = do
    perform env (
        Call.send_payment wallet transfer.amount transfer.asset
          (String.◌++◌ "REFUND-" (last_segment p.reference)))
    record_refund p merchant dto

  -- From the guard on the amount on.
  unfoldable pub refund_amount_checked :
      Payment → (merchant_id : String) → RefundPaymentDto → (wallet : String) → Action Payment
  unfolding send_refund
  refund_amount_checked p merchant dto wallet =
      let amount = refund_amount dto.amount_usd p in
      if ltb p.amount_usd amount
      then throw (Error.bad_request "Refund amount cannot exceed original payment amount")
      else try_catch (send_refund p merchant dto wallet (transfer_of amount p p.amount_usdc))
          (λ e. throw (refund_error e))

  -- From the guard on the customer's wallet on.
  unfoldable pub refund_to :
      Payment → (merchant_id : String) → RefundPaymentDto → Option String → Action Payment
  unfolding refund_amount_checked perform
  refund_to p merchant dto none =
      throw (Error.bad_request "Customer wallet address is unknown. Manual refund required.")
  refund_to p merchant dto (some wallet) =
      perform env (Call.find_merchant merchant) >> refund_amount_checked p merchant dto wallet

  unfoldable pub refund :
      Option Payment → (merchant_id : String) → RefundPaymentDto → Action Payment
  unfolding refund_to
  refund none merchant dto = throw (Error.not_found "Payment not found")
  refund (some p) merchant dto =
      if not (is_settled p.status)
      then throw (Error.bad_request "Only settled payments can be refunded")
      else refund_to p merchant dto (truthy p.customer_wallet_address)
