-- ===== src/Settlements/Admin/Loopholes.antt =====
-- Two sequences of calls that the guards of the settlement service let through.
use dabdub.Prelude.{◌+◌, ◌≡◌, refl, true, false, none, some, String, List, [], ◌∷◌, arith}
use dabdub.Platform.Entities.{Payment, PaymentStatus, Settlement, SettlementStatus}
use dabdub.Platform.Actions.{Call, Env, Result, ok, History, settlement_status, transfers}
use dabdub.Platform.Loops.{after}
use dabdub.Settlements.Transfer.{
  with_status, failed_row, execute_fiat_transfer, handle_partner_callback,
}
use dabdub.Settlements.Transfer.Outcome.{handle_partner_callback-Stand}
use dabdub.Settlements.Transfer.Payout.{payout, execute_fiat_transfer_pays_once}
use dabdub.Settlements.Admin.{Answer, retried_row, retry_settlement}
use dabdub.Settlements.Admin.Gates.{sent_again, retry_settlement-Gated}

-- Saving rows and queueing a job is no transfer.
transfers-after :
    (id : String) (ps : List Payment) (h : History)
    → transfers id (after (λ p. Call.save_payment (with_status PaymentStatus.settling p)) ps h)
      ≡ transfers id h
unfolding transfers
transfers-after id [] h = refl
transfers-after id (p ∷ ps) h =
    transfers-after id ps (Call.save_payment (with_status PaymentStatus.settling p) ∷ h)

transfers-sent_again :
    (id : String) (row : Settlement) (ps : List Payment) (h : History)
    → transfers id (sent_again row ps h) ≡ transfers id h
unfolding transfers
transfers-sent_again id row [] h = refl
transfers-sent_again id row (p ∷ ps) h = transfers-after id (p ∷ ps) (Call.save_settlement row ∷ h)

module _ (env : Env) (s row : Settlement) (p : Payment) (ps : List Payment) where
  -- The partner accepts every transfer of this amount for settlement `s`. Suppose the settlement is
  -- executed, ends up failed all the same (its row `row` in the database has its id and says so), is
  -- retried with an answer, and the job that this queues is executed. Then the partner has
  -- accepted two more transfers for it than before.
  pub retry_pays_again :
      {a : Answer} {r₁ r₂ : Result (Unit {0})} (h h₁ h₂ h₃ : History)
      → ((k : History) → env.throws (payout env s) k ≡ none)
      → ((k : History) → env.throws (payout env row) k ≡ none)
      → row.id ≡ s.id
      → row.status ≡ SettlementStatus.failed
      → execute_fiat_transfer env s (p ∷ ps) h ≡ (r₁, h₁)
      → retry_settlement env (some (row, p ∷ ps)) h₁ ≡ (ok a, h₂)
      → execute_fiat_transfer env (retried_row row) (p ∷ ps) h₂ ≡ (r₂, h₃)
      → transfers s.id h₃ ≡ transfers s.id h + 2
  retry_pays_again {a} {r₁} {r₂} h h₁ h₂ h₃ accepts accepts' same failed first retry second =
      let once = execute_fiat_transfer_pays_once env s p ps h h₁ r₁ first in
      let gate = retry_settlement-Gated env (some (row, p ∷ ps)) a h₁ h₂ retry in
      let twice = execute_fiat_transfer_pays_once env (retried_row row) p ps h₂ h₃ r₂ second in
      ground (
        arith,
        once,
        gate,
        twice,
        accepts h,
        accepts' h₂,
        transfers-sent_again s.id (retried_row row) (p ∷ ps) h₁,
      )

module _ (env : Env) (s : Settlement) (p : Payment) (ps : List Payment) where
  -- Let `s` wait for approval. If the partner's callback reports a failure for it, and the row that
  -- this saves is retried with an answer, then the answer is success, and a job for `s` is queued
  -- although nobody has approved it: the row saved before has the old time of approval.
  failed_callback_evades_approval :
      {a : Answer} (why : String) (h h₁ h₂ : History)
      → s.status ≡ SettlementStatus.pending_approval
      → s.approved_at ≡ none
      → handle_partner_callback env (some (s, p ∷ ps)) false (some why) h ≡ (ok tt, h₁)
      → retry_settlement env (some (failed_row why s, p ∷ ps)) h₁ ≡ (ok a, h₂)
      → (settlement_status s.id h₁ ≡ some SettlementStatus.failed)
        × (a.success ≡ true)
        × (sent : Settlement) × (sent.id ≡ s.id)
        × (sent.approved_at ≡ none)
        × (h₂ ≡ sent_again sent (p ∷ ps) h₁)
  failed_callback_evades_approval {a} why h h₁ h₂ waits none_yet called retried =
      let gate = retry_settlement-Gated env (some (failed_row why s, p ∷ ps)) a h₁ h₂ retried in
      let stands = handle_partner_callback-Stand env s (p ∷ ps) false (some why) h h₁ called in
      (
        (stands.1 refl).0,
        ground arith,
        retried_row (failed_row why s),
        refl,
        none_yet,
        ground arith,
      )
