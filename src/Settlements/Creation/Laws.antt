-- ===== src/Settlements/Creation/Laws.antt =====
-- What a settlement made from payments guarantees: the split of the amount, the approval of large
-- settlements, and the link from the payments to it.
use dabdub.Prelude.{
  ℕ, ◌+◌, ◌*◌, ◌≤◌, ◌<◌, ◌≡◌, ◌⊎◌, ◌↔◌, inl, inr, true, false, String, List, [], ◌∷◌, refl, arith,
  sum_by, length, Bool-cases, ltb, if◌then◌else◌,
}
use dabdub.Platform.Entities.{Payment, Settlement, SettlementStatus}
use dabdub.Platform.Actions.{Call, Value, AlertType, Env, ok, History}
use dabdub.Platform.Loops.{after, for_each-cases}
use dabdub.Settlements.Creation.{
  small_batch_threshold, large_settlement_threshold, to_fine, batch_fee, to_fixed_6, new_settlement,
  large_settlement_key, link_payment, initiate_settlement, create_batch_settlement,
}

-- Of a new settlement: fee and net make up the total, the fee is 1.5 % of it, and it waits for
-- approval exactly when the net reaches the limit.
pub record IsSplit (s : Settlement) : Type 0 where
  pub whole : s.fee_amount_usd + s.net_amount_usd ≡ s.total_amount_usd
  pub rate : s.fee_amount_usd * 1000 ≡ s.total_amount_usd * 15
  pub gate : (s.requires_approval ≡ true) ↔ (large_settlement_threshold ≤ s.net_amount_usd)
  pub waits : (s.status ≡ SettlementStatus.pending_approval) ↔ (s.requires_approval ≡ true)
  pub runs : (s.status ≡ SettlementStatus.processing) ↔ (s.requires_approval ≡ false)

pub new_settlement-IsSplit : (m : String) (a : ℕ) (id : String) → IsSplit (new_settlement m a id)
new_settlement-IsSplit m a id = ground arith

-- The transfer is queued, or, for a large settlement, an administrator is told instead.
abbrev pub hand_over : Settlement → Call
hand_over s =
    if s.requires_approval
    then Call.raise_alert AlertType.settlement_failure (large_settlement_key s.id)
    else Call.enqueue_settlement s.id

abbrev pub settling_event : Payment → Settlement → Call
settling_event p s =
    Call.dispatch p.merchant_id "payment.settling"
      (("paymentId", Value.text p.id) ∷ ("settlementId", Value.text s.id) ∷ [])

-- If `initiateSettlement` returns: a payment under ten dollars is left alone and nothing is called.
-- Any other is saved as settling, with the fee, in a settlement of its amount, whose split is
-- right; the calls made are exactly the two saves, the webhook, and then the job if the net is
-- under ten thousand dollars, or else the alert.
pub initiate_settlement_outcome :
    (env : Env) (p p' : Payment) (h h' : History)
    → initiate_settlement env p h ≡ (ok p', h')
    → ((p.amount_usd < small_batch_threshold) × (p' ≡ p) × (h' ≡ h))
      ⊎ ((s : Settlement) × (small_batch_threshold ≤ p.amount_usd)
          × IsSplit s
          × (s.total_amount_usd ≡ to_fine p.amount_usd)
          × (p' ≡ link_payment s.fee_amount_usd s.id p)
          × (h'
              ≡ hand_over s
                ∷ settling_event p s
                ∷ Call.save_payment p'
                ∷ Call.save_settlement s
                ∷ h))
unfolding initiate_settlement
initiate_settlement_outcome env p p' h h' e =
    elim (Bool-cases (ltb p.amount_usd small_batch_threshold)) [
      | inl small ↦ inl (ground arith, ground arith, ground arith)
      | inr big ↦ inr (
        new_settlement p.merchant_id p.amount_usd (env.fresh_id h),
        ground arith,
        new_settlement-IsSplit _ _ _,
        refl,
        ground arith,
        ground arith,
      )
    ]

abbrev pub rounded_fee : Payment → ℕ
rounded_fee p = to_fixed_6 (batch_fee p.amount_usd)

-- In a batch the rounding of the fees, payment by payment, moves their sum from the settlement's fee
-- by at most half a millionth of a dollar for each payment, up or down.
rounded_fees_close :
    (ps : List Payment)
    → let fee = batch_fee (sum_by (λ p. p.amount_usd) ps) in
      (fee ≤ sum_by rounded_fee ps + 500 * length ps)
      × (sum_by rounded_fee ps ≤ fee + 500 * length ps)
rounded_fees_close [] = omega arith
rounded_fees_close (p ∷ ps) = omega (arith, rounded_fees_close ps)

module _ (env : Env) where
  -- If `createBatchSettlement` returns for a batch with a payment in it, it has saved one settlement
  -- of the batch's total, whose split is right, then every payment of the batch, in order, as
  -- settling and linked to that settlement, and has handed the settlement over; nothing else.
  create_batch_settlement_outcome :
      (p : Payment) (ps : List Payment) (h h' : History)
      → create_batch_settlement env (p ∷ ps) h ≡ (ok tt, h')
      → (s : Settlement) × IsSplit s
        × (s.merchant_id ≡ p.merchant_id)
        × (s.total_amount_usd ≡ to_fine (sum_by (λ q. q.amount_usd) (p ∷ ps)))
        × (h'
            ≡ hand_over s
              ∷ after
                  (λ q. Call.save_payment (link_payment (rounded_fee q) s.id q))
                  (p ∷ ps)
                  (Call.save_settlement s ∷ h))
  unfolding create_batch_settlement
  create_batch_settlement_outcome p ps h h' e =
      let s = new_settlement p.merchant_id (sum_by (λ q. q.amount_usd) (p ∷ ps)) (env.fresh_id h) in
      elim (for_each-cases env (λ q. Call.save_payment (link_payment (rounded_fee q) s.id q))
        (p ∷ ps) (Call.save_settlement s ∷ h)) [
          | inl saved ↦ (s, new_settlement-IsSplit _ _ _, refl, refl, ground arith)
          | inr (x, k, thrown) ↦ absurd (ground arith)
        ]
