-- ===== src/Settlements/Transfer/Payout.antt =====
-- How often a settlement is paid out.
use Prim.Native.String
use dabdub.Prelude.{
  ℕ, ◌+◌, ◌≡◌, refl, ◌⊎◌, inl, inr, none, some, String, List, ◌∷◌, arith, eq_refl, subst,
  Option-cases,
}
use dabdub.Platform.Entities.{Payment, Settlement}
use dabdub.Platform.Actions.{
  Call, Env, Error, message, AlertType, Result, ok, err, History, perform, transfers,
}
use dabdub.Platform.Loops.{Keeps, for_each-Always, Keeps-Always, Always, >>-Always, Result-cases}
use dabdub.Settlements.Transfer.{
  settle_payment, announce_settled, fail_payment, announce_failed, complete, fail, failed_row,
  transferred, invalidate_analytics_for_merchant, on_transfer_error, after_transfer,
  execute_fiat_transfer,
}

-- As many transfers as before.
abbrev Paid : String → ℕ → History → Type 0
Paid id n h = transfers id h ≡ n

module _ (env : Env) (s : Settlement) (id : String) (n : ℕ) where
  settle_payment-Keeps : (p : Payment) → Keeps (Paid id n) (settle_payment env s p)
  unfolding settle_payment transfers
  settle_payment-Keeps p h k = ground arith

  announce_settled-Keeps : (p : Payment) → Keeps (Paid id n) (announce_settled env s p)
  unfolding announce_settled transfers
  announce_settled-Keeps p h k = ground arith

  announce_failed-Keeps : (m : String) (p : Payment) → Keeps (Paid id n) (announce_failed env s m p)
  unfolding announce_failed transfers
  announce_failed-Keeps m p h k = ground arith

  fail_payment-Keeps : (p : Payment) → Keeps (Paid id n) (fail_payment env p)
  unfolding fail_payment transfers
  fail_payment-Keeps p h k = ground arith

  invalidate-Keeps : (m : String) → Keeps (Paid id n) (invalidate_analytics_for_merchant env m)
  unfolding invalidate_analytics_for_merchant transfers
  invalidate-Keeps m h k = ground arith

  save_settlement-Keeps :
      (row : Settlement) → Keeps (Paid id n) (perform env (Call.save_settlement row))
  unfolding perform transfers
  save_settlement-Keeps row h k = ground arith

  raise_alert-Keeps :
      (t : AlertType) (key : String) → Keeps (Paid id n) (perform env (Call.raise_alert t key))
  unfolding perform transfers
  raise_alert-Keeps t key h k = ground arith

  complete-Always : (ps : List Payment) → Always (Paid id n) (complete env s ps)
  unfolding complete
  complete-Always ps =
      >>-Always (Paid id n) _ _
        (Keeps-Always _ (perform env (Call.save_settlement s)) (save_settlement-Keeps s))
        (>>-Always (Paid id n) _ _
          (for_each-Always (Paid id n) ps (settle_payment env s) settle_payment-Keeps)
          (>>-Always (Paid id n) _ _
            (Keeps-Always _ (invalidate_analytics_for_merchant env s.merchant_id)
              (invalidate-Keeps s.merchant_id))
            (for_each-Always (Paid id n) ps (announce_settled env s) announce_settled-Keeps)))

  on_transfer_error-Always :
      (ps : List Payment) (e : Error) → Always (Paid id n) (on_transfer_error env s ps e)
  unfolding on_transfer_error fail
  on_transfer_error-Always ps e =
      >>-Always (Paid id n) _ _
        (Keeps-Always _
          (perform env
            (Call.raise_alert AlertType.settlement_failure (String.◌++◌ "settlement:" s.id)))
          (raise_alert-Keeps _ _))
        (>>-Always (Paid id n) _ _
          (Keeps-Always _ (perform env (Call.save_settlement (failed_row (message e) s)))
            (save_settlement-Keeps _))
          (>>-Always (Paid id n) _ _
            (for_each-Always (Paid id n) ps (fail_payment env) fail_payment-Keeps)
            (for_each-Always (Paid id n) ps (announce_failed env s (message e))
              (announce_failed-Keeps (message e)))))

module _ (env : Env) (s : Settlement) where
  abbrev pub payout : Call
  payout = Call.post_transfer s.net_amount_usd s.merchant_id s.id

  after_transfer-Paid :
      (n : ℕ) (ps : List Payment) (h h' : History) (r : Result (Unit {0}))
      → Paid s.id n h
      → after_transfer env s ps h ≡ (r, h')
      → Paid s.id n h'
  unfolding after_transfer
  after_transfer-Paid n ps h h' r paid e =
      let s' = transferred (env.transfer_reference h) (env.now h) s in
      elim (Result-cases (complete env s' ps h)) [
        | inl (k, done) ↦
            let kept = complete-Always env s' s.id n ps h k (ok tt) paid done in
            let same : k ≡ h' = ground arith in subst (Paid s.id n) same kept
        | inr (x, k, thrown) ↦
            let kept = complete-Always env s' s.id n ps h k (err x) paid thrown in
            on_transfer_error-Always env s' s.id n ps x k h' r kept (ground arith)
      ]

  -- However `executeFiatTransfer` ends, and whatever it then says of the settlement, the partner has
  -- accepted one more transfer for it if the call to the partner did not throw, and none otherwise.
  pub execute_fiat_transfer_pays_once :
      (p : Payment) (ps : List Payment) (h h' : History) (r : Result (Unit {0}))
      → execute_fiat_transfer env s (p ∷ ps) h ≡ (r, h')
      → ((env.throws payout h ≡ none) × (transfers s.id h' ≡ transfers s.id h + 1))
        ⊎ ((m : Error) × (env.throws payout h ≡ some m) × (transfers s.id h' ≡ transfers s.id h))
  unfolding execute_fiat_transfer transfers
  execute_fiat_transfer_pays_once p ps h h' r e = elim (Option-cases (env.throws payout h)) [
    | inl fine ↦ inl (
      fine,
      after_transfer-Paid (transfers s.id h + 1) (p ∷ ps) (payout ∷ h) h' r
          (ground (arith, eq_refl s.id)) (ground arith),
    )
    | inr (m, bad) ↦ inr (
      m,
      bad,
      on_transfer_error-Always env s s.id (transfers s.id h) (p ∷ ps) m h h' r refl (ground arith),
    )
  ]
