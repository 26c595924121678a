-- ===== src/Platform/Entities.antt =====
-- The rows that several services read and write: backend/src/payments/entities/payment.entity.ts and
-- backend/src/settlements/entities/settlement.entity.ts; and those of the webhooks.
--
-- Amounts are scaled integers: `amount_usd` counts millionths of a dollar, the six places of its
-- column. What a rate has been applied to (fees, totals and nets) counts billionths, so that 1.5 %
-- of an amount is a whole number. Times are milliseconds. Columns that no modelled code reads are
-- left out.
use dabdub.Prelude.{List, ℕ, String, Option, Bool, true, false}

pub data PaymentStatus : Type 0 where
  pending confirmed settling settled failed expired refunded : PaymentStatus

pub PaymentStatus-discrete : Discrete PaymentStatus
PaymentStatus-discrete = hlevel

-- `a === b` on the status of payments.
abbrev pub same_status : PaymentStatus → PaymentStatus → Bool
same_status PaymentStatus.pending PaymentStatus.pending = true
same_status PaymentStatus.confirmed PaymentStatus.confirmed = true
same_status PaymentStatus.settling PaymentStatus.settling = true
same_status PaymentStatus.settled PaymentStatus.settled = true
same_status PaymentStatus.failed PaymentStatus.failed = true
same_status PaymentStatus.expired PaymentStatus.expired = true
same_status PaymentStatus.refunded PaymentStatus.refunded = true
same_status _ _ = false

pub record Payment : Type 0 where
  pub id : String
  pub reference : String
  pub merchant_id : String
  pub amount_usd : ℕ  -- millionths
  pub amount_xlm : ℕ  -- ten-millionths
  pub amount_usdc : Option ℕ  -- millionths
  pub status : PaymentStatus
  pub stellar_memo : String
  pub stellar_deposit_address : String
  pub customer_wallet_address : Option String
  pub tx_hash : Option String
  pub description : Option String
  pub customer_email : Option String
  pub fee_usd : Option ℕ  -- billionths
  pub expires_at : ℕ
  pub expiry_ledger : Option ℕ
  pub confirmed_at : Option ℕ
  pub refund_amount_usd : Option ℕ  -- millionths
  pub refund_reason : Option String
  pub refund_tx_hash : Option String
  pub refunded_at : Option ℕ
  pub settlement_id : Option String
  pub created_at : ℕ

pub data SettlementStatus : Type 0 where
  pending pending_approval processing completed failed : SettlementStatus

pub SettlementStatus-discrete : Discrete SettlementStatus
SettlementStatus-discrete = hlevel

pub record Settlement : Type 0 where
  pub id : String
  pub merchant_id : String
  pub total_amount_usd : ℕ  -- billionths
  pub fee_amount_usd : ℕ  -- billionths
  pub net_amount_usd : ℕ  -- billionths
  pub fiat_currency : Option String
  pub status : SettlementStatus
  pub partner_reference : Option String
  pub failure_reason : Option String
  pub requires_approval : Bool
  pub approved_by : Option String
  pub approved_at : Option ℕ
  pub completed_at : Option ℕ

-- One dollar in the two units.
abbrev pub dollar : ℕ
dollar = 1_000_000

abbrev pub fine_dollar : ℕ
fine_dollar = 1_000_000_000

-- backend/src/webhooks/entities/webhook.entity.ts
pub record Webhook : Type 0 where
  pub id : String
  pub merchant_id : String
  pub url : String
  pub events : List String
  pub secret : Option String
  pub is_active : Bool
  pub failure_count : ℕ
  pub last_delivered_at : Option ℕ

-- `WebhookDeliveryJobData`, the data of a job in the delivery queue.
pub record WebhookJob : Type 0 where
  pub webhook_id : String
  pub merchant_id : String
  pub url : String
  pub secret : String
  pub event : String
  pub body : String
  pub attempt_number : ℕ

pub data DeliveryStatus : Type 0 where
  success failure : DeliveryStatus
