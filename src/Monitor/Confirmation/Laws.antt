-- ===== src/Monitor/Confirmation/Laws.antt =====
-- What a confirmation does, returned or thrown, and what the expiry of payments does.
use dabdub.Prelude.{
  ℕ, ◌≤◌, ◌<◌, ◌≡◌, ◌⊎◌, inl, inr, refl, some, String, List, ◌∷◌, arith, Option-cases, sym, ◌∙◌,
  true, false, ◌≢◌, truthy-cases, str_eq, if◌then◌else◌, round_div, truthy, ap,
}
use dabdub.Platform.Entities.{Payment, PaymentStatus, Settlement}
use dabdub.Platform.Actions.{Call, Env, ok, History, written, perform, ◌>>◌, pure, when}
use dabdub.Platform.Loops.{Keeps}
use dabdub.Platform.Runs.{
  Leads, >>-Leads, perform-Keeps, perform->>, perform->>-either, >>-cases, if-cases,
}
use dabdub.Settlements.Creation.{small_batch_threshold, to_fine, link_payment, initiate_settlement}
use dabdub.Settlements.Creation.Laws.{
  IsSplit, hand_over, settling_event, initiate_settlement_outcome,
}
use dabdub.Settlements.Creation.Writes.{Linked, initiate_settlement-Linked}
use dabdub.Monitor.Verification.{Paid}
use dabdub.Monitor.Confirmation.{
  confirmed_by, email_merchant, queue_payment_confirmed_email, confirmed_event, save_confirmed,
  confirm_payment,
}

module _ (env : Env) where
  -- A merchant without an address gets no e-mail. With one, the preference is looked up, and the
  -- e-mail is queued when it is on, and only then.
  abbrev pub Mailed : Payment → History → History → Type 0
  Mailed p h h' =
      let address = env.merchant_email p.merchant_id h in
      let asked = Call.read_preference p.merchant_id "payment.confirmed" ∷ h in
      let mail = Call.queue_email p.merchant_id "payment-confirmed" p.id in
      let on = env.email_enabled p.merchant_id "payment.confirmed" asked in
      ((address ≡ "") × (h' ≡ h))
      ⊎ ((address ≢ "") × (on ≡ false) × (h' ≡ asked))
      ⊎ ((address ≢ "") × (on ≡ true) × (h' ≡ mail ∷ asked))

  perform_returns : (c : Call) (h h' : History) → perform env c h ≡ (ok tt, h') → h' ≡ c ∷ h
  unfolding perform
  perform_returns c h h' e = elim (Option-cases (env.throws c h)) [
    | inl fine ↦ ground arith
    | inr (x, bad) ↦ absurd (ground arith)
  ]

  email_merchant_lem :
      (p : Payment) (address : String) (h h' : History)
      → email_merchant env p (some address) h ≡ (ok tt, h')
      → let asked = Call.read_preference p.merchant_id "payment.confirmed" ∷ h in
        let mail = Call.queue_email p.merchant_id "payment-confirmed" p.id in
        let on = env.email_enabled p.merchant_id "payment.confirmed" asked in
        ((on ≡ false) × (h' ≡ asked)) ⊎ ((on ≡ true) × (h' ≡ mail ∷ asked))
  unfolding email_merchant
  email_merchant_lem p address h h' e =
      let asked = Call.read_preference p.merchant_id "payment.confirmed" ∷ h in
      let mail = perform env (Call.queue_email p.merchant_id "payment-confirmed" p.id) in
      elim (perform->> env (Call.read_preference p.merchant_id "payment.confirmed")
        (λ k. when (env.email_enabled p.merchant_id "payment.confirmed" k) mail k) h h' (ok tt) e) [
          | inr (same, (x, bad)) ↦ absurd (ground arith)
          | inl run ↦
              elim (if-cases (env.email_enabled p.merchant_id "payment.confirmed" asked) mail
                (pure tt) asked (ok tt, h') run) [
                  | inl (on, queued) ↦ inr (on, perform_returns _ asked h' queued)
                  | inr (off, done) ↦ inl (off, sym (ap (λ z. z.1) done))
                ]
        ]

  queue_email-Mailed :
      (p : Payment) (h h' : History)
      → queue_payment_confirmed_email env p h ≡ (ok tt, h')
      → Mailed p h h'
  unfolding queue_payment_confirmed_email
  queue_email-Mailed p h h' e =
      let address = env.merchant_email p.merchant_id h in
      elim (truthy-cases address) [
        | inl (nobody, empty) ↦
            let run = sym (ap (λ o. email_merchant env p o h) nobody) ∙ e in
            inl (empty, sym (ap (λ z. z.1) run))
        | inr (known, not_empty) ↦
            elim (email_merchant_lem p address h h'
              (sym (ap (λ o. email_merchant env p o h) known) ∙ e)) [
                | inl (off, done) ↦ inr (inl (not_empty, off, done))
                | inr (on, done) ↦ inr (inr (not_empty, on, done))
              ]
      ]

  -- A settlement was made from the payment, or it is under ten dollars and left for a batch.
  abbrev pub SettledOrLeft : Payment → Payment → History → History → Type 0
  SettledOrLeft p p' h h' =
      ((p.amount_usd < small_batch_threshold) × (p' ≡ p) × (h' ≡ h))
      ⊎ ((s : Settlement) × (small_batch_threshold ≤ p.amount_usd)
          × IsSplit s
          × (s.total_amount_usd ≡ to_fine p.amount_usd)
          × (p' ≡ link_payment s.fee_amount_usd s.id p)
          × (h'
              ≡ hand_over s
                ∷ settling_event p s
                ∷ Call.save_payment p'
                ∷ Call.save_settlement s
                ∷ h))

  save_confirmed_settles :
      (row p' : Payment) (hash : String) (paid : Paid) (h h' : History)
      → save_confirmed env hash paid row h ≡ (ok p', h')
      → (j : History) × Mailed row (Call.save_payment row ∷ h) j
        × SettledOrLeft row p' (confirmed_event env hash paid row ∷ j) h'
  unfolding save_confirmed
  save_confirmed_settles row p' hash paid h h' e =
      let mail = queue_payment_confirmed_email env row in
      let tell = perform env (confirmed_event env hash paid row) >> initiate_settlement env row in
      elim (perform->> env (Call.save_payment row) (mail >> tell) h h' (ok p') e) [
        | inr (same, (x, bad)) ↦ absurd (ground arith)
        | inl saved ↦ elim (>>-cases mail tell (Call.save_payment row ∷ h) h' (ok p') saved) [
          | inr (x, thrown, bad) ↦ absurd (ground arith)
          | inl (u, j, mailed, told) ↦
              elim (perform->> env (confirmed_event env hash paid row) (initiate_settlement env row)
                j h' (ok p') told) [
                  | inr (same, (x, bad)) ↦ absurd (ground arith)
                  | inl settled ↦ (
                    j,
                    queue_email-Mailed row (Call.save_payment row ∷ h) j mailed,
                    initiate_settlement_outcome env row p' (confirmed_event env hash paid row ∷ j)
                        h' settled,
                  )
                ]
        ]
      ]

  -- If `confirmPayment` returns: the contract was asked to confirm, the payment was saved as confirmed
  -- by this transaction, at this time, from this customer, with the paid amount in the asset it was
  -- paid in; the merchant was mailed if there is an address and the e-mail is not switched off, and
  -- otherwise not; the webhook was sent; and then, for the amount that the merchant asked for, a
  -- settlement was made, or, under ten dollars, the payment left for a batch. These are all the calls,
  -- in this order.
  pub confirm_payment_settles :
      (p p' : Payment) (hash : String) (paid : Paid) (h h' : History)
      → confirm_payment env p hash paid h ≡ (ok p', h')
      → let asked = Call.confirm_on_chain p.id hash paid.amount paid.asset paid.from ∷ h in
        let usdc = str_eq paid.asset "USDC" in
        let row : Payment = record p {
          status = PaymentStatus.confirmed;
          tx_hash = some hash;
          confirmed_at = some (env.now asked);
          customer_wallet_address = paid.from;
          amount_usdc = if usdc then some (round_div paid.amount 10) else p.amount_usdc;
          amount_xlm = if usdc then p.amount_xlm else paid.amount;
        } in
        (j : History) × Mailed row (Call.save_payment row ∷ asked) j
        × SettledOrLeft row p' (confirmed_event env hash paid row ∷ j) h'
  unfolding confirm_payment
  confirm_payment_settles p p' hash paid h h' e =
      let asked = Call.confirm_on_chain p.id hash paid.amount paid.asset paid.from ∷ h in
      let row = confirmed_by hash paid (env.now asked) p in
      elim (perform->> env (Call.confirm_on_chain p.id hash paid.amount paid.asset paid.from)
        (λ k. save_confirmed env hash paid (confirmed_by hash paid (env.now k) p) k) h h' (ok p')
        e) [
          | inr (same, (x, bad)) ↦ absurd (ground arith)
          | inl run ↦ save_confirmed_settles row p' hash paid asked h' run
        ]

  abbrev pub ConfirmWrites : Payment → List Payment → History → Type 0
  ConfirmWrites row rows h = (written h ≡ rows) ⊎ Linked row (row ∷ rows) h

  queue_email-Keeps :
      (p : Payment) (rows : List Payment)
      → Keeps (λ h. written h ≡ rows) (queue_payment_confirmed_email env p)
  unfolding queue_payment_confirmed_email written
  queue_email-Keeps p rows h same =
      elim (Option-cases (truthy (some (env.merchant_email p.merchant_id h)))) [
        | inl nobody ↦ ground arith
        | inr (address, known) ↦ ground arith
      ]

  save_confirmed-Writes :
      (row : Payment) (hash : String) (paid : Paid) (rows : List Payment)
      → Leads (λ h. written h ≡ rows) (save_confirmed env hash paid row) (ConfirmWrites row rows)
  unfolding save_confirmed written
  save_confirmed-Writes row hash paid rows h same =
      let mail = queue_payment_confirmed_email env row in
      let event = confirmed_event env hash paid row in
      let tell = perform env event >> initiate_settlement env row in
      let Now : History → Type 0 = λ k. written k ≡ row ∷ rows in
      let later : Leads Now (mail >> tell) (Linked row (row ∷ rows)) =
        >>-Leads Now (Linked row (row ∷ rows)) (λ k q. inl q) mail tell
          (queue_email-Keeps row (row ∷ rows))
          (>>-Leads Now (Linked row (row ∷ rows)) (λ k q. inl q) (perform env event)
            (initiate_settlement env row) (perform-Keeps Now env event (λ k q. q))
            (initiate_settlement-Linked env row (row ∷ rows))) in
      perform->>-either (ConfirmWrites row rows) env (Call.save_payment row) (mail >> tell) h
        (inr (later (Call.save_payment row ∷ h) (ap (λ ps. row ∷ ps) same))) (inl same)

  -- However `confirmPayment` ends, it has written no row, or the confirmed one, and then perhaps the
  -- same linked to a settlement.
  pub confirm_payment-Writes :
      (p : Payment) (hash : String) (paid : Paid) (h : History)
      → (time : ℕ) × ConfirmWrites
          (confirmed_by hash paid time p)
          (written h)
          (confirm_payment env p hash paid h).1
  unfolding confirm_payment written
  confirm_payment-Writes p hash paid h =
      let call = Call.confirm_on_chain p.id hash paid.amount paid.asset paid.from in
      let time = env.now (call ∷ h) in
      let row = confirmed_by hash paid time p in
      (
        time,
        perform->>-either (ConfirmWrites row (written h)) env call
            (λ k. save_confirmed env hash paid (confirmed_by hash paid (env.now k) p) k) h
            (save_confirmed-Writes row hash paid (written h) (call ∷ h) refl) (inl refl),
      )
