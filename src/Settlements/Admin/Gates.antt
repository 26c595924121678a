-- ===== src/Settlements/Admin/Gates.antt =====
-- What lets a settlement through to the queue.
use dabdub.Prelude.{
  ◌≡◌, ◌⊎◌, inl, inr, true, false, Option, none, some, List, ◌∷◌, arith, if◌then◌else◌,
}
use dabdub.Platform.Entities.{Payment, PaymentStatus, Settlement, SettlementStatus}
use dabdub.Platform.Actions.{Call, Env, ok, History}
use dabdub.Platform.Loops.{after, for_each-cases}
use dabdub.Settlements.Transfer.{with_status}
use dabdub.Settlements.Admin.{
  Answer, retried_row, approved_row, is_empty, retry_settlement, approve_settlement,
}

-- The history after `send_again`.
abbrev pub sent_again : Settlement → List Payment → History → History
sent_again row payments h =
    let saved =
      after (λ p. Call.save_payment (with_status PaymentStatus.settling p)) payments
        (Call.save_settlement row ∷ h) in
    if is_empty payments then saved else Call.enqueue_settlement row.id ∷ saved

abbrev pub Found : Type 0
Found = Option (Settlement × List Payment)

abbrev pub IsRetryable : Found → Type 0
IsRetryable none = ⊥
IsRetryable (some (s, _)) = s.status ≡ SettlementStatus.failed

abbrev pub IsApprovable : Found → Type 0
IsApprovable none = ⊥
IsApprovable (some (s, _)) =
    (s.status ≡ SettlementStatus.pending_approval) × (s.requires_approval ≡ true)

-- The calls of a successful answer on a row.
abbrev pub SentAgain : Found → (Settlement → Settlement) → History → History → Type 0
SentAgain none row h h' = ⊥
SentAgain (some (s, ps)) row h h' = h' ≡ sent_again (row s) ps h

abbrev pub Gated : Type 0 → Answer → Found → (Settlement → Settlement) → History → History → Type 0
Gated Passes a found row h h' =
    ((¬ Passes) × (a.success ≡ false) × (h' ≡ h))
    ⊎ (Passes × (a.success ≡ true) × SentAgain found row h h')

module _ (env : Env) where
  -- If `retrySettlement` returns: when the settlement was found and has failed, the answer is success,
  -- and the calls made are exactly the save of the settlement as processing, with failure reason,
  -- partner's reference and completion time cleared, the saves of all its payments as settling, and
  -- the job if there are payments. Otherwise the answer is no success, and nothing was called.
  pub retry_settlement-Gated :
      (found : Found) (a : Answer) (h h' : History)
      → retry_settlement env found h ≡ (ok a, h')
      → Gated (IsRetryable found) a found retried_row h h'
  unfolding retry_settlement
  retry_settlement-Gated none a h h' e = inl (λ x. x, ground arith, ground arith)
  retry_settlement-Gated (some (s, ps)) a h h' e =
      elim (for_each-cases env (λ p. Call.save_payment (with_status PaymentStatus.settling p)) ps
        (Call.save_settlement (retried_row s) ∷ h)) [
          | inl saved ↦ ground arith
          | inr (x, k, thrown) ↦ ground arith
        ]

  -- If `approveSettlement` returns: when the settlement was found, waits for approval and requires it,
  -- the answer is success, and the calls made are exactly the save of the settlement as processing,
  -- approved now, the saves of all its payments as settling, and the job if there are payments.
  -- Otherwise the answer is no success, and nothing was called.
  approve_settlement-Gated :
      (found : Found) (a : Answer) (h h' : History)
      → approve_settlement env found h ≡ (ok a, h')
      → Gated (IsApprovable found) a found (approved_row (env.now h)) h h'
  unfolding approve_settlement
  approve_settlement-Gated none a h h' e = inl (λ x. x, ground arith, ground arith)
  approve_settlement-Gated (some (s, ps)) a h h' e =
      elim (for_each-cases env (λ p. Call.save_payment (with_status PaymentStatus.settling p)) ps
        (Call.save_settlement (approved_row (env.now h) s) ∷ h)) [
          | inl saved ↦ ground arith
          | inr (x, k, thrown) ↦ ground arith
        ]
