-- ===== src/Settlements/Admin.antt =====
-- The administrator's part: `retrySettlement` and `approveSettlement` of
-- backend/src/settlements/settlements.service.ts.
pub mod Gates
pub mod Loopholes
use dabdub.Prelude.{
  ℕ, Bool, true, false, Option, none, some, String, List, [], ◌∷◌, not, if◌then◌else◌,
}
use dabdub.Platform.Entities.{Payment, PaymentStatus, Settlement, SettlementStatus}
use dabdub.Platform.Actions.{Call, Env, Action, pure, ◌>>=◌, ◌>>◌, when, for_each, perform, now}
use dabdub.Settlements.Transfer.{with_status}

-- `{ success, message }`
pub record Answer : Type 0 where
  pub success : Bool
  pub message : String

abbrev pub is_failed : SettlementStatus → Bool
is_failed SettlementStatus.failed = true
is_failed _ = false

abbrev pub is_pending_approval : SettlementStatus → Bool
is_pending_approval SettlementStatus.pending_approval = true
is_pending_approval _ = false

abbrev pub refuse : String → Action Answer
refuse why = pure (record { success = false; message = why })

abbrev pub retried_row : Settlement → Settlement
retried_row s = record s {
  status = SettlementStatus.processing;
  failure_reason = none;
  partner_reference = none;
  completed_at = none;
}

abbrev pub approved_row : ℕ → Settlement → Settlement
approved_row t s = record s {
  status = SettlementStatus.processing;
  approved_at = some t;
  approved_by = some "admin";
}

abbrev pub is_empty : List Payment → Bool
is_empty [] = true
is_empty (_ ∷ _) = false

module _ (env : Env) where
  -- The common end of both methods: save the settlement, then its payments as settling, and queue
  -- the job if there are any.
  unfoldable pub send_again : Settlement → List Payment → Action (Unit {0})
  unfolding perform
  send_again row payments = do
    perform env (Call.save_settlement row)
    for_each payments (λ p. perform env (Call.save_payment (with_status PaymentStatus.settling p)))
    when (not (is_empty payments)) (perform env (Call.enqueue_settlement row.id))

  unfoldable pub retry_settlement : Option (Settlement × List Payment) → Action Answer
  unfolding send_again
  retry_settlement none = refuse "Settlement not found"
  retry_settlement (some (s, payments)) =
      let go : Action Answer = do
        send_again (retried_row s) payments
        pure (record { success = true; message = "Settlement retry initiated" })
      in if not (is_failed s.status) then refuse "Only failed settlements can be retried" else go

  unfoldable pub approve_settlement : Option (Settlement × List Payment) → Action Answer
  unfolding send_again
  approve_settlement none = refuse "Settlement not found"
  approve_settlement (some (s, payments)) =
      let go : Action Answer = do
        t ← now env
        send_again (approved_row t s) payments
        pure (record { success = true; message = "Settlement approved and processing initiated" })
      in if not (is_pending_approval s.status)
        then refuse "Only settlements pending approval can be approved"
        else if not s.requires_approval
        then refuse "Settlement does not require manual approval"
        else go
