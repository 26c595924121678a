-- ===== src/Settlements/Transfer/Outcome.antt =====
-- How the settlement and its payments stand in the database when `executeFiatTransfer` or
-- `handlePartnerCallback` has returned.
use dabdub.Prelude.{
  ◌≡◌, refl, ◌⊎◌, inl, inr, Bool, true, false, Option, some, String, List, ◌∷◌, arith, Option-cases,
}
use dabdub.Platform.Entities.{Payment, PaymentStatus, Settlement, SettlementStatus}
use dabdub.Platform.Actions.{Call, Env, Error, message, ok, History}
use dabdub.Platform.Loops.{Ensures, >>-Ensures, Result-cases}
use dabdub.Settlements.Transfer.{
  completed_row, transferred, complete, on_transfer_error, after_transfer, execute_fiat_transfer,
  handle_partner_callback,
}
use dabdub.Settlements.Transfer.Rows.{Stand, complete-Stand, fail-Stand}

module _ (env : Env) (s : Settlement) (payments : List Payment) where
  -- The two ways in which a settlement and all its payments may stand together.
  abbrev pub StandTogether : History → Type 0
  StandTogether h =
      Stand SettlementStatus.completed PaymentStatus.settled s.id payments h
      ⊎ Stand SettlementStatus.failed PaymentStatus.failed s.id payments h

  on_transfer_error-Stand :
      (e : Error)
      → Ensures
          (λ _. Unit)
          (on_transfer_error env s payments e)
          (Stand SettlementStatus.failed PaymentStatus.failed s.id payments)
  unfolding on_transfer_error
  on_transfer_error-Stand e =
      >>-Ensures (λ _. Unit) (λ _. Unit)
        (Stand SettlementStatus.failed PaymentStatus.failed s.id payments) _ _ (λ _ _ _ _. tt)
        (fail-Stand env s payments (message e))

module _ (env : Env) (s : Settlement) (payments : List Payment) where
  after_transfer-Stand :
      (h h' : History)
      → after_transfer env s payments h ≡ (ok tt, h')
      → StandTogether env s payments h'
  unfolding after_transfer
  after_transfer-Stand h h' e =
      let s' = transferred (env.transfer_reference h) (env.now h) s in
      elim (Result-cases (complete env s' payments h)) [
        | inl (k, done) ↦ inl (complete-Stand env s' payments refl h h' tt (ground arith))
        | inr (x, k, thrown) ↦
            inr (on_transfer_error-Stand env s' payments x k h' tt (ground arith))
      ]

-- If `executeFiatTransfer` returns for a settlement with payments, whatever failed on the way, the
-- database has the settlement completed and every one of its payments settled, or the settlement
-- failed and every one of its payments failed.
pub execute_fiat_transfer_all_or_nothing :
    (env : Env) (s : Settlement) (p : Payment) (ps : List Payment) (h h' : History)
    → execute_fiat_transfer env s (p ∷ ps) h ≡ (ok tt, h')
    → StandTogether env s (p ∷ ps) h'
unfolding execute_fiat_transfer
execute_fiat_transfer_all_or_nothing env s p ps h h' e =
    let post = Call.post_transfer s.net_amount_usd s.merchant_id s.id in
    elim (Option-cases (env.throws post h)) [
      | inl fine ↦ after_transfer-Stand env s (p ∷ ps) (post ∷ h) h' (ground arith)
      | inr (m, bad) ↦ inr (on_transfer_error-Stand env s (p ∷ ps) m h h' tt (ground arith))
    ]

-- If `handlePartnerCallback` returns for a settlement that it found, the database has the
-- settlement completed and all its payments settled after a word of success, and the settlement and
-- all its payments failed after any other.
pub handle_partner_callback-Stand :
    (env : Env) (s : Settlement) (payments : List Payment) (success : Bool) (reason : Option String)
    (h h' : History)
    → handle_partner_callback env (some (s, payments)) success reason h ≡ (ok tt, h')
    → (success ≡ true → Stand SettlementStatus.completed PaymentStatus.settled s.id payments h')
      × (success ≡ false → Stand SettlementStatus.failed PaymentStatus.failed s.id payments h')
unfolding handle_partner_callback
handle_partner_callback-Stand env s payments true reason h h' e =
    (λ _. complete-Stand env (completed_row (env.now h) s) payments refl h h' tt e, λ c. cc)
handle_partner_callback-Stand env s payments false reason h h' e =
    (λ c. cc, λ _. fail-Stand env s payments _ h h' tt e)
