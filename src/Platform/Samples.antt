-- ===== src/Platform/Samples.antt =====
-- Surroundings and rows for the tests.
use Prim.Native.String
use dabdub.Prelude.{ℕ, Bool, true, Option, none, some, String, [], ◌∷◌, length}
use dabdub.Platform.Entities.{Payment, PaymentStatus, Settlement, SettlementStatus}
use dabdub.Platform.Actions.{Call, Env, Error}

-- Nothing throws, and the clock moves with the calls made.
abbrev pub calm : Env
calm = record {
  throws = λ c h. none;
  fresh_id = λ h. "row-1";
  now = λ h. length h;
  transfer_reference = λ h. some "bank-7";
  email_enabled = λ m e h. true;
  tx_hash = λ h. "tx-1";
  random_text = λ n h. "R4ND";
  deposit_address = "GDEP";
  xlm_rate = λ h. 100_000;
  ledgers_per_minute = 12;
  webhook_retry_schedule = 60_000 ∷ 300_000 ∷ 1_800_000 ∷ [];
  active_webhooks = λ m h. [];
  webhook = λ id h. none;
  contract_expiry = λ h. 360;
  merchant_email = λ m h. "shop@example.com";
  business_name = λ m h. "Shop";
}

-- The cache is down; all else works.
abbrev pub is_cache_call : Call → Option Error
is_cache_call (Call.del_pattern _) = some (Error.failure "redis is down")
is_cache_call _ = none

abbrev pub cacheless : Env
cacheless = record {
  throws = λ c h. is_cache_call c;
  fresh_id = λ h. "row-1";
  now = λ h. length h;
  transfer_reference = λ h. some "bank-7";
  email_enabled = λ m e h. true;
  tx_hash = λ h. "tx-1";
  random_text = λ n h. "R4ND";
  deposit_address = "GDEP";
  xlm_rate = λ h. 100_000;
  ledgers_per_minute = 12;
  webhook_retry_schedule = 60_000 ∷ 300_000 ∷ 1_800_000 ∷ [];
  active_webhooks = λ m h. [];
  webhook = λ id h. none;
  contract_expiry = λ h. 360;
  merchant_email = λ m h. "shop@example.com";
  business_name = λ m h. "Shop";
}

abbrev pub payment_of : (id merchant_id : String) → (amount_usd confirmed_at : ℕ) → Payment
payment_of id merchant amount t = record {
  id = id;
  reference = String.◌++◌ "PAY-" id;
  merchant_id = merchant;
  amount_usd = amount;
  amount_xlm = 0;
  amount_usdc = some amount;
  status = PaymentStatus.confirmed;
  stellar_memo = "MEMO";
  stellar_deposit_address = "GDEP";
  customer_wallet_address = some "GCUS";
  tx_hash = none;
  description = none;
  customer_email = none;
  fee_usd = none;
  expires_at = 0;
  expiry_ledger = none;
  confirmed_at = some t;
  refund_amount_usd = none;
  refund_reason = none;
  refund_tx_hash = none;
  refunded_at = none;
  settlement_id = none;
  created_at = 0;
}

abbrev pub settlement_of :
    (id : String) → SettlementStatus → (requires_approval : Bool) → Settlement
settlement_of id status approval = record {
  id = id;
  merchant_id = "m1";
  total_amount_usd = 20_000_000_000;
  fee_amount_usd = 300_000_000;
  net_amount_usd = 19_700_000_000;
  fiat_currency = some "NGN";
  status = status;
  partner_reference = none;
  failure_reason = none;
  requires_approval = approval;
  approved_by = none;
  approved_at = none;
  completed_at = none;
}
