-- ===== src/Monitor/Confirmation/Expiry.antt =====
-- What the expiry of payments does.
use dabdub.Prelude.{◌≡◌, inl, inr, some, ◌∷◌, arith, All, eq_refl}
use dabdub.Platform.Entities.{Payment, PaymentStatus}
use dabdub.Platform.Actions.{Call, Env, ok, History, payment_status, for_each, ◌>>=◌, ask}
use dabdub.Platform.Loops.{Keeps, for_each-All}
use dabdub.Platform.Runs.{perform->>}
use dabdub.Monitor.Verification.{Chain}
use dabdub.Monitor.Confirmation.{expire_payment, expire_old_payments}

module _ (env : Env) where
  abbrev IsExpired : Payment → History → Type 0
  IsExpired p h = payment_status p.id h ≡ some PaymentStatus.expired

  expire_payment-IsExpired :
      (p : Payment) (h h' : History) → expire_payment env p h ≡ (ok tt, h') → IsExpired p h'
  unfolding expire_payment payment_status
  expire_payment-IsExpired p h h' e = let same = eq_refl p.id in ground arith

  expire_payment-Keeps : (p q : Payment) → Keeps (IsExpired p) (expire_payment env q)
  unfolding expire_payment payment_status
  expire_payment-Keeps p q h k = ground arith

  -- If `expireOldPayments` returns, every payment that the query found, however many there are and
  -- though each needs a call of the contract, has been saved as expired.
  expire_old_payments-All :
      (chain : Chain) (h h' : History)
      → expire_old_payments env chain h ≡ (ok tt, h')
      → All
          (λ p. payment_status p.id h' ≡ some PaymentStatus.expired)
          (chain.expired_payments (env.now h) (Call.find_expired (env.now h) ∷ h))
  unfolding expire_old_payments
  expire_old_payments-All chain h h' e =
      let found = Call.find_expired (env.now h) ∷ h in
      let expired = chain.expired_payments (env.now h) found in
      elim (perform->> env (Call.find_expired (env.now h))
        (ask (chain.expired_payments (env.now h)) >>= λ ps. for_each ps (expire_payment env)) h h'
        (ok tt) e) [
          | inr (same, (x, bad)) ↦ absurd (ground arith)
          | inl run ↦
              for_each-All IsExpired (expire_payment env) expire_payment-IsExpired
                expire_payment-Keeps expired found h' run
        ]
