-- ===== src/Settlements/Creation.antt =====
-- Settlements made from payments: `initiateSettlement` and `createBatchSettlement` of
-- backend/src/settlements/settlements.service.ts.
pub mod Laws
pub mod Writes
use dabdub.Prelude.{
  ℕ, ◌+◌, ◌-◌, ◌*◌, ◌/◌, Bool, true, false, Option, none, some, String, List, [], ◌∷◌, ltb, leb,
  if◌then◌else◌, sum_by,
}
use Prim.Native.String
use dabdub.Platform.Entities.{
  Payment, PaymentStatus, Settlement, SettlementStatus, dollar, fine_dollar,
}
use dabdub.Platform.Actions.{
  Call, Value, AlertType, Env, Action, pure, ◌>>=◌, ◌>>◌, for_each, perform, fresh_id,
}

-- SMALL_BATCH_THRESHOLD_USD, in the unit of `amount_usd`.
abbrev pub small_batch_threshold : ℕ
small_batch_threshold = 10 * dollar

-- LARGE_SETTLEMENT_THRESHOLD, in the unit of `net_amount_usd`.
abbrev pub large_settlement_threshold : ℕ
large_settlement_threshold = 10_000 * fine_dollar

-- A millionth of a dollar is a thousand billionths.
abbrev pub to_fine : ℕ → ℕ
to_fine amount = amount * 1000

-- `amount * BATCH_FEE_RATE`: 0.015 of a millionth is 15 billionths.
abbrev pub batch_fee : ℕ → ℕ
batch_fee amount = amount * 15

-- `Number(x.toFixed(6))` of an amount in billionths: to the nearest millionth, a half goes up.
abbrev pub to_fixed_6 : ℕ → ℕ
to_fixed_6 x = (x + 500) / 1000 * 1000

-- The row that both methods create.
abbrev pub new_settlement : (merchant_id : String) → (amount : ℕ) → String → Settlement
new_settlement merchant amount id =
    let net = to_fine amount - batch_fee amount in
    record {
      id = id;
      merchant_id = merchant;
      total_amount_usd = to_fine amount;
      fee_amount_usd = batch_fee amount;
      net_amount_usd = net;
      fiat_currency = some "NGN";
      status =
          if leb large_settlement_threshold net
          then SettlementStatus.pending_approval
          else SettlementStatus.processing;
      partner_reference = none;
      failure_reason = none;
      requires_approval = leb large_settlement_threshold net;
      approved_by = none;
      approved_at = none;
      completed_at = none;
    }

abbrev pub large_settlement_key : String → String
large_settlement_key id = String.◌++◌ "large-settlement:" id

abbrev pub is_processing : SettlementStatus → Bool
is_processing SettlementStatus.processing = true
is_processing _ = false

abbrev pub link_payment : ℕ → String → Payment → Payment
link_payment fee settlement p = record p {
  status = PaymentStatus.settling;
  fee_usd = some fee;
  settlement_id = some settlement;
}

module _ (env : Env) where
  -- `settlementsRepo.save(settlementsRepo.create(...))`: the database chooses the id.
  unfoldable pub save_new_settlement : (merchant_id : String) → ℕ → Action Settlement
  unfolding perform
  save_new_settlement merchant amount = do
    id ← fresh_id env
    perform env (Call.save_settlement (new_settlement merchant amount id))
    pure (new_settlement merchant amount id)

  unfoldable pub initiate_settlement : Payment → Action Payment
  unfolding save_new_settlement perform
  initiate_settlement p =
      let create : Action Payment = do
        saved ← save_new_settlement p.merchant_id p.amount_usd
        let p' = link_payment (batch_fee p.amount_usd) saved.id p
        perform env (Call.save_payment p')
        perform env (
            Call.dispatch p.merchant_id "payment.settling"
              (("paymentId", Value.text p.id) ∷ ("settlementId", Value.text saved.id) ∷ []))
        if saved.requires_approval
            then perform env
                (Call.raise_alert AlertType.settlement_failure (large_settlement_key saved.id))
            else perform env (Call.enqueue_settlement saved.id)
        pure p'
      in if ltb p.amount_usd small_batch_threshold then pure p else create

  -- The loop of `createBatchSettlement` over the payments; the fee is rounded for each of them.
  abbrev pub settle_in_batch : String → Payment → Action (Unit {0})
  settle_in_batch settlement p =
      perform env
        (Call.save_payment (link_payment (to_fixed_6 (batch_fee p.amount_usd)) settlement p))

  unfoldable pub create_batch_settlement : List Payment → Action (Unit {0})
  unfolding save_new_settlement perform
  create_batch_settlement [] = pure tt
  create_batch_settlement (first ∷ rest) = do
    saved ← save_new_settlement first.merchant_id (sum_by (λ p. p.amount_usd) (first ∷ rest))
    for_each (first ∷ rest) (settle_in_batch saved.id)
    if is_processing saved.status
        then perform env (Call.enqueue_settlement saved.id)
        else perform env
            (Call.raise_alert AlertType.settlement_failure (large_settlement_key saved.id))
