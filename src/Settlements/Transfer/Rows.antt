-- ===== src/Settlements/Transfer/Rows.antt =====
-- How `complete` and `fail` leave the rows of a settlement and of its payments in the database.
use dabdub.Prelude.{◌≡◌, some, String, List, arith, eq_refl, All, All-map}
use dabdub.Platform.Entities.{Payment, PaymentStatus, Settlement, SettlementStatus}
use dabdub.Platform.Actions.{Env, ok, History, Action, for_each, payment_status, settlement_status}
use dabdub.Platform.Loops.{
  Keeps, Ensures, >>-Ensures, Keeps-Ensures, for_each-Keeps, for_each-Ensures,
}
use dabdub.Settlements.Transfer.{
  settle_payment, announce_settled, fail_payment, announce_failed, complete, fail,
  invalidate_analytics_for_merchant,
}

abbrev pub PaymentIs : PaymentStatus → Payment → History → Type 0
PaymentIs st p h = payment_status p.id h ≡ some st

abbrev pub SettlementIs : SettlementStatus → String → History → Type 0
SettlementIs st id h = settlement_status id h ≡ some st

-- The settlement and all its payments are stored with these statuses.
abbrev pub Stand : SettlementStatus → PaymentStatus → String → List Payment → History → Type 0
Stand ss ps id payments h = SettlementIs ss id h × All (λ p. PaymentIs ps p h) payments

module _ (env : Env) (s : Settlement) where
  settle_payment-does :
      (p : Payment) (h h' : History)
      → settle_payment env s p h ≡ (ok tt, h')
      → PaymentIs PaymentStatus.settled p h'
  unfolding settle_payment payment_status
  settle_payment-does p h h' e = ground (arith, eq_refl p.id)

  settle_payment-Keeps :
      (p q : Payment) → Keeps (PaymentIs PaymentStatus.settled p) (settle_payment env s q)
  unfolding settle_payment payment_status
  settle_payment-Keeps p q h k = ground arith

  settle_payment-Keeps_settlement :
      (st : SettlementStatus) (id : String) (q : Payment)
      → Keeps (SettlementIs st id) (settle_payment env s q)
  unfolding settle_payment settlement_status
  settle_payment-Keeps_settlement st id q h k = ground arith

  announce_settled-Keeps :
      (st : PaymentStatus) (p q : Payment) → Keeps (PaymentIs st p) (announce_settled env s q)
  unfolding announce_settled payment_status
  announce_settled-Keeps st p q h k = ground arith

  announce_settled-Keeps_settlement :
      (st : SettlementStatus) (id : String) (q : Payment)
      → Keeps (SettlementIs st id) (announce_settled env s q)
  unfolding announce_settled settlement_status
  announce_settled-Keeps_settlement st id q h k = ground arith

  fail_payment-does :
      (p : Payment) (h h' : History)
      → fail_payment env p h ≡ (ok tt, h')
      → PaymentIs PaymentStatus.failed p h'
  unfolding fail_payment payment_status
  fail_payment-does p h h' e = ground (arith, eq_refl p.id)

  fail_payment-Keeps :
      (p q : Payment) → Keeps (PaymentIs PaymentStatus.failed p) (fail_payment env q)
  unfolding fail_payment payment_status
  fail_payment-Keeps p q h k = ground arith

  fail_payment-Keeps_settlement :
      (st : SettlementStatus) (id : String) (q : Payment)
      → Keeps (SettlementIs st id) (fail_payment env q)
  unfolding fail_payment settlement_status
  fail_payment-Keeps_settlement st id q h k = ground arith

  announce_failed-Keeps :
      (reason : String) (st : PaymentStatus) (p q : Payment)
      → Keeps (PaymentIs st p) (announce_failed env s reason q)
  unfolding announce_failed payment_status
  announce_failed-Keeps reason st p q h k = ground arith

  announce_failed-Keeps_settlement :
      (reason : String) (st : SettlementStatus) (id : String) (q : Payment)
      → Keeps (SettlementIs st id) (announce_failed env s reason q)
  unfolding announce_failed settlement_status
  announce_failed-Keeps_settlement reason st id q h k = ground arith

module _ (env : Env) (merchant : String) where
  invalidate-Keeps :
      (st : PaymentStatus) (p : Payment)
      → Keeps (PaymentIs st p) (invalidate_analytics_for_merchant env merchant)
  unfolding invalidate_analytics_for_merchant payment_status
  invalidate-Keeps st p h k = ground arith

  invalidate-Keeps_settlement :
      (st : SettlementStatus) (id : String)
      → Keeps (SettlementIs st id) (invalidate_analytics_for_merchant env merchant)
  unfolding invalidate_analytics_for_merchant settlement_status
  invalidate-Keeps_settlement st id h k = ground arith

-- What leaves each row alone leaves the whole picture.
Stand-Keeps :
    (ss : SettlementStatus) (ps : PaymentStatus) (id : String) (payments : List Payment)
    (m : Action (Unit {0}))
    → Keeps (SettlementIs ss id) m
    → ((p : Payment) → Keeps (PaymentIs ps p) m)
    → Keeps (Stand ss ps id payments) m
Stand-Keeps ss ps id payments m ks kp h (a, b) = (ks h a, All-map (λ p. kp p h) payments b)

module _ (env : Env) (s : Settlement) (payments : List Payment) where
  pub complete-Stand :
      s.status ≡ SettlementStatus.completed
      → Ensures
          (λ _. Unit)
          (complete env s payments)
          (Stand SettlementStatus.completed PaymentStatus.settled s.id payments)
  unfolding complete settlement_status
  complete-Stand st =
      let row = SettlementIs SettlementStatus.completed s.id in
      let all = Stand SettlementStatus.completed PaymentStatus.settled s.id payments in
      >>-Ensures (λ _. Unit) row all _ _ (λ h h' _ e. ground (arith, eq_refl s.id))
        (>>-Ensures row all all _ _
          (for_each-Ensures row (PaymentIs PaymentStatus.settled) (settle_payment env s) payments
            (settle_payment-Keeps_settlement env s SettlementStatus.completed s.id)
            (settle_payment-does env s) (settle_payment-Keeps env s))
          (>>-Ensures all all all _ _
            (Keeps-Ensures all (invalidate_analytics_for_merchant env s.merchant_id) (
              Stand-Keeps _ _ s.id payments (invalidate_analytics_for_merchant env s.merchant_id)
                (invalidate-Keeps_settlement env s.merchant_id SettlementStatus.completed s.id)
                (invalidate-Keeps env s.merchant_id PaymentStatus.settled)))
            (Keeps-Ensures all (for_each payments (announce_settled env s)) (
              for_each-Keeps all payments (announce_settled env s) λ q.
                Stand-Keeps _ _ s.id payments (announce_settled env s q)
                  (announce_settled-Keeps_settlement env s SettlementStatus.completed s.id q)
                  (λ p. announce_settled-Keeps env s PaymentStatus.settled p q)))))

  pub fail-Stand :
      (reason : String)
      → Ensures
          (λ _. Unit)
          (fail env s reason payments)
          (Stand SettlementStatus.failed PaymentStatus.failed s.id payments)
  unfolding fail settlement_status
  fail-Stand reason =
      let row = SettlementIs SettlementStatus.failed s.id in
      let all = Stand SettlementStatus.failed PaymentStatus.failed s.id payments in
      >>-Ensures (λ _. Unit) row all _ _ (λ h h' _ e. ground (arith, eq_refl s.id))
        (>>-Ensures row all all _ _
          (for_each-Ensures row (PaymentIs PaymentStatus.failed) (fail_payment env) payments
            (fail_payment-Keeps_settlement env s SettlementStatus.failed s.id)
            (fail_payment-does env s) (fail_payment-Keeps env s))
          (Keeps-Ensures all (for_each payments (announce_failed env s reason)) (
            for_each-Keeps all payments (announce_failed env s reason) λ q.
              Stand-Keeps _ _ s.id payments (announce_failed env s reason q)
                (announce_failed-Keeps_settlement env s reason SettlementStatus.failed s.id q)
                (λ p. announce_failed-Keeps env s reason PaymentStatus.failed p q))))
