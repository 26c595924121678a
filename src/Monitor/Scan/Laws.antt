-- ===== src/Monitor/Scan/Laws.antt =====
-- What a scan of the deposit account guarantees.
use Prim.Native.String
use dabdub.Prelude.{
  ℕ, ◌≡◌, ◌⊎◌, inl, inr, refl, Option, none, some, String, List, ◌∷◌, arith, Bool-cases,
  Option-cases, truthy, sym, ap, ◌∙◌, subst,
}
use dabdub.Platform.Entities.{Payment}
use dabdub.Platform.Actions.{
  Call, AlertType, Env, Result, ok, History, written, perform, pure, ask, ◌>>◌, ◌>>=◌,
}
use dabdub.Platform.Runs.{perform-Keeps, perform->>-either, >>-after, try_catch-after, >>=-ok}
use dabdub.Settlements.Creation.Writes.{Linked}
use dabdub.Monitor.Verification.{
  Transaction, Chain, Paid, find_payment, is_other_memo, verify_payment,
}
use dabdub.Monitor.Confirmation.{confirmed_by, confirm_payment}
use dabdub.Monitor.Confirmation.Laws.{ConfirmWrites, confirm_payment-Writes}
use dabdub.Monitor.Scan.{handle_verified, handle_matched, handle_memo, handle_transaction}

module _ (env : Env) (chain : Chain) where
  -- A verification always returns, and writes nothing.
  verify_payment-returns :
      (hash memo : String) (amount : Option ℕ) (h : History)
      → (v : Option Paid) × (k : History) × (verify_payment env chain hash memo amount h
          ≡ (ok v, k))
        × (written k ≡ written h)
  unfolding verify_payment written
  verify_payment-returns hash memo amount h =
      elim (Option-cases (env.throws (Call.read_transaction hash) h)) [
        | inr (x, bad) ↦ (none, h, ground arith, refl)
        | inl fine ↦
            let h1 = Call.read_transaction hash ∷ h in
            elim (Bool-cases (is_other_memo memo (chain.memo hash h1))) [
              | inl other ↦ (none, h1, ground arith, refl)
              | inr same ↦ elim (Option-cases (env.throws (Call.read_operations hash) h1)) [
                | inr (x, bad) ↦ (none, h1, ground arith, refl)
                | inl read ↦
                    let h2 = Call.read_operations hash ∷ h1 in
                    (
                      find_payment chain.usdc_issuer (chain.operations hash h2),
                      h2,
                      ground arith,
                      refl,
                    )
              ]
            ]
      ]

  handle_verified-Writes :
      (tx : Transaction) (p : Payment) (paid : Paid) (h : History)
      → (time : ℕ) × ConfirmWrites env
          (confirmed_by tx.hash paid time p)
          (written h)
          (handle_verified env chain tx p (some paid) h).1
  unfolding handle_verified written
  handle_verified-Writes tx p paid h =
      let (time, writes) = confirm_payment-Writes env p tx.hash paid h in
      let P = ConfirmWrites env (confirmed_by tx.hash paid time p) (written h) in
      let alert =
        Call.raise_alert AlertType.stellar_monitor (String.◌++◌ "stellar-monitor.confirm:" p.id) in
      (
        time,
        try_catch-after P (confirm_payment env p tx.hash paid >> pure tt) (λ _. perform env alert) h
            (>>-after P (confirm_payment env p tx.hash paid) (pure tt) h writes (λ k q. q))
            (λ _. perform-Keeps P env alert (λ k q. q)),
      )

  -- A transaction that justifies a change: it has the memo of a pending payment, and was verified.
  abbrev pub Justified : Transaction → List Payment → History → Type 0
  Justified tx rows h' =
      (memo : String) × (p : Payment) × (paid : Paid) × (time : ℕ) × (k k' j : History) × (truthy
          tx.memo
        ≡ some memo)
      × (chain.pending_payment memo k ≡ some p)
      × (verify_payment env chain tx.hash memo none k' ≡ (ok (some paid), j))
      × Linked (confirmed_by tx.hash paid time p) (confirmed_by tx.hash paid time p ∷ rows) h'

  handle_matched-Writes :
      (tx : Transaction) (memo : String) (found : Option Payment) (k h : History)
      → truthy tx.memo ≡ some memo
      → chain.pending_payment memo k ≡ found
      → let h' = (handle_matched env chain tx memo found h).1 in
        (written h' ≡ written h) ⊎ Justified tx (written h) h'
  unfolding handle_matched handle_verified
  handle_matched-Writes tx memo none k h has found = inl refl
  handle_matched-Writes tx memo (some p) k h has found =
      let (v, j, ran, same) = verify_payment-returns tx.hash memo none h in
      let step =
        ap (λ (x : Result (Unit {0}) × History). x.1)
          (>>=-ok (verify_payment env chain tx.hash memo none) (handle_verified env chain tx p) h j
            v ran) in
      go v j ran same step
    where
      justify :
          (paid : Paid) (j : History) (time : ℕ)
          → verify_payment env chain tx.hash memo none h ≡ (ok (some paid), j)
          → let h' = (handle_matched env chain tx memo (some p) h).1 in
            ConfirmWrites env (confirmed_by tx.hash paid time p) (written h) h'
            → (written h' ≡ written h) ⊎ Justified tx (written h) h'
      justify paid j time ran (inl nothing) = inl nothing
      justify paid j time ran (inr linked) =
          inr (memo, p, paid, time, k, h, j, has, found, ran, linked)

      go :
          (v : Option Paid) (j : History)
          → verify_payment env chain tx.hash memo none h ≡ (ok v, j)
          → written j ≡ written h
          → (handle_matched env chain tx memo (some p) h).1 ≡ (handle_verified env chain tx p v j).1
          → let h' = (handle_matched env chain tx memo (some p) h).1 in
            (written h' ≡ written h) ⊎ Justified tx (written h) h'
      go none j ran same step = inl (ap written step ∙ same)
      go (some paid) j ran same step =
          let (time, writes) = handle_verified-Writes tx p paid j in
          let row = confirmed_by tx.hash paid time p in
          let h' = (handle_matched env chain tx memo (some p) h).1 in
          let moved =
            subst (λ (i : History). ConfirmWrites env row (written j) i) (sym step) writes in
          justify paid j time ran
            (subst (λ (rows : List Payment). ConfirmWrites env row rows h') same moved)

  -- However it ends, a round of the scan has written no payment, or the row of a payment that was
  -- pending and has the transaction's memo, confirmed by the transaction after its verification,
  -- and then perhaps the same row linked to a settlement.
  pub handle_transaction-Writes :
      (tx : Transaction) (h : History)
      → let h' = (handle_transaction env chain tx h).1 in
        (written h' ≡ written h) ⊎ Justified tx (written h) h'
  unfolding handle_transaction handle_memo written
  handle_transaction-Writes tx h = go (truthy tx.memo) refl
    where
      go :
          (memo : Option String)
          → truthy tx.memo ≡ memo
          → let h' = (handle_memo env chain tx memo h).1 in
            (written h' ≡ written h) ⊎ Justified tx (written h) h'
      go none has = inl refl
      go (some memo) has =
          let found = Call.find_pending memo ∷ h in
          perform->>-either (λ h'. (written h' ≡ written h) ⊎ Justified tx (written h) h') env
            (Call.find_pending memo)
            (ask (chain.pending_payment memo) >>= λ matched.
              handle_matched env chain tx memo matched)
            h
            (handle_matched-Writes tx memo (chain.pending_payment memo found) found found has refl)
            (inl refl)
