-- ===== src/Payments/Refund/Confirming.antt =====
-- What `confirmPayment` makes of the contract's answer.
use dabdub.Prelude.{
  ◌≡◌, ◌⊎◌, inl, inr, Bool, true, false, none, some, String, ◌∷◌, refl, sym, ap, if◌then◌else◌,
  str_eq, eq_refl, subst, Option-cases, arith,
}
use dabdub.Platform.Entities.{Payment, PaymentStatus}
use dabdub.Platform.Actions.{
  Call, Error, Env, Result, ok, err, History, perform, ◌>>◌, throw, payment_status, written, sent,
}
use dabdub.Payments.Refund.{on_confirm_error, confirm_row, confirm_payment}
use dabdub.Platform.Runs.{attempt-cases}

-- The contract says that the payment has expired.
abbrev pub is_expiry : Error → Bool
is_expiry (Error.payment_expired m) = true
is_expiry e = false

-- One row was written, and with it the status of its payment, and of no other; nothing was sent.
abbrev pub Wrote : Payment → (any : String) → History → History → Type 0
Wrote row any h h' =
    (written h' ≡ row ∷ written h)
    × (payment_status row.id h' ≡ some row.status)
    × (payment_status any h'
        ≡ (if str_eq row.id any then some row.status else payment_status any h))
    × (sent h' ≡ sent h)

-- No row was written, the status of every payment is what it was, and nothing was sent.
abbrev pub WroteNothing : (any : String) → History → History → Type 0
WroteNothing any h h' =
    (written h' ≡ written h) × (payment_status any h' ≡ payment_status any h) × (sent h' ≡ sent h)

save_then :
    (env : Env) (c : Call) (v : Result Payment) (h h' : History) (r : Result Payment)
    → (perform env c >> (λ k. (v, k))) h ≡ (r, h')
    → ((r ≡ v) × (h' ≡ c ∷ h)) ⊎ ((e : Error) × (env.throws c h ≡ some e) × (r ≡ err e) × (h' ≡ h))
unfolding perform
save_then env c v h h' r e = elim (Option-cases (env.throws c h)) [
  | inl fine ↦ inl (ground arith)
  | inr (x, bad) ↦ inr (x, bad, ground arith, ground arith)
]

-- The state after a call that is no row and no transfer, and then the save of a row.
Wrote-save :
    (row : Payment) (any : String) (h k : History)
    → WroteNothing any h k
    → Wrote row any h (Call.save_payment row ∷ k)
unfolding written payment_status sent
Wrote-save row any h k (rows, status, money) = (
  ap (λ ps. row ∷ ps) rows,
  ap (λ b. if b then some row.status else payment_status row.id k) (eq_refl row.id),
  ap (λ o. if str_eq row.id any then some row.status else o) status,
  money,
)

module _ (env : Env) (p : Payment) (id customer : String) (h : History) where
  abbrev asking : Call
  asking = Call.confirm_on_contract id customer

  -- What the payment becomes where the contract confirms.
  abbrev pub confirmed : Payment
  confirmed = record p {
    status = PaymentStatus.confirmed;
    customer_wallet_address = some customer;
    confirmed_at = some (env.now (Call.confirm_on_contract id customer ∷ h));
  }

  -- What it becomes where the contract says that it has expired.
  abbrev pub expired : Payment
  expired = record p { status = PaymentStatus.expired }

  -- Why nothing is written: the contract throws `e`, which is not about expiry, or the database refuses
  -- the row with `e`.
  abbrev pub Hindered : Error → Type 0
  Hindered e =
      let answer = env.throws (Call.confirm_on_contract id customer) h in
      ((answer ≡ some e) × (is_expiry e ≡ false))
      ⊎ ((answer ≡ none)
          × (env.throws (Call.save_payment confirmed) (Call.confirm_on_contract id customer ∷ h)
              ≡ some e))
      ⊎ ((m : String) × (answer ≡ some (Error.payment_expired m))
          × (env.throws (Call.save_payment expired) h ≡ some e))

  abbrev pub Confirms : (any : String) → Result Payment → History → Type 0
  Confirms any r h' =
      let answer = env.throws (Call.confirm_on_contract id customer) h in
      ((answer ≡ none) × (r ≡ ok confirmed) × Wrote confirmed any h h')
      ⊎ ((m : String) × (answer ≡ some (Error.payment_expired m))
          × (r ≡ err (Error.bad_request m))
          × Wrote expired any h h')
      ⊎ ((e : Error) × (r ≡ err e) × WroteNothing any h h' × Hindered e)

  thrown_on :
      (any : String) (e : Error) (h' : History) (r : Result Payment)
      → env.throws asking h ≡ some e
      → is_expiry e ≡ false
      → throw e h ≡ (r, h')
      → Confirms any r h'
  thrown_on any e h' r refused other run =
      let same = sym (ap (λ (z : Result Payment × History). z.1) run) in
      inr (
        inr (
          e,
          sym (ap (λ (z : Result Payment × History). z.0) run),
          unchanged any same,
          inl (refused, other),
        ))
    where
      unchanged : (any : String) {k : History} → k ≡ h → WroteNothing any h k
      unchanged any same = (ap written same, ap (payment_status any) same, ap sent same)

  on_confirm_error-Confirms :
      (any : String) (e : Error) (h' : History) (r : Result Payment)
      → env.throws asking h ≡ some e
      → on_confirm_error env p e h ≡ (r, h')
      → Confirms any r h'
  unfolding on_confirm_error written payment_status sent
  on_confirm_error-Confirms any (Error.payment_expired m) h' r refused run =
      elim (save_then env (Call.save_payment expired) (err (Error.bad_request m)) h h' r run) [
        | inl (bad, saved) ↦ inr (
            inl (
              m,
              refused,
              bad,
              subst (Wrote expired any h) (sym saved)
                  (Wrote-save expired any h h (refl, refl, refl)),
            ))
        | inr (x, down, thrown, same) ↦ inr (
            inr (
              x,
              thrown,
              subst (WroteNothing any h) (sym same) (refl, refl, refl),
              inr (inr (m, refused, down)),
            ))
      ]
  on_confirm_error-Confirms any (Error.not_found m) h' r refused run =
      thrown_on any _ h' r refused refl run
  on_confirm_error-Confirms any (Error.bad_request m) h' r refused run =
      thrown_on any _ h' r refused refl run
  on_confirm_error-Confirms any (Error.forbidden m) h' r refused run =
      thrown_on any _ h' r refused refl run
  on_confirm_error-Confirms any (Error.unauthorized m) h' r refused run =
      thrown_on any _ h' r refused refl run
  on_confirm_error-Confirms any (Error.conflict m) h' r refused run =
      thrown_on any _ h' r refused refl run
  on_confirm_error-Confirms any (Error.failure m) h' r refused run =
      thrown_on any _ h' r refused refl run

  -- However `confirmPayment` of a payment that is found ends, the database follows the contract. Where
  -- the contract confirms and the row is saved, the payment is returned and its status is then
  -- confirmed, with the customer and the time; where it says that the payment has expired and the row
  -- is saved, its status is then expired, and a bad request is thrown with the contract's words. In both
  -- cases one row is written and no other payment changes its status. Otherwise the method throws the
  -- error that hindered it, the contract's or the database's on that save, and no payment changes its
  -- status. Nothing is ever sent.
  pub confirm_payment_outcome :
      (any : String) (h' : History) (r : Result Payment)
      → confirm_payment env (some p) id customer h ≡ (r, h')
      → Confirms any r h'
  unfolding confirm_payment written payment_status sent
  confirm_payment_outcome any h' r e =
      elim (attempt-cases env asking (λ _. confirm_row env customer p) (on_confirm_error env p) h
        (r, h') e) [
          | inr (x, refused, run) ↦ on_confirm_error-Confirms any x h' r refused run
          | inl (through, run) ↦
              elim (save_then env (Call.save_payment confirmed) (ok confirmed) (asking ∷ h) h' r
                run) [
                  | inl (good, saved) ↦ inl (
                    through,
                    good,
                    subst (Wrote confirmed any h) (sym saved)
                        (Wrote-save confirmed any h (asking ∷ h) (refl, refl, refl)),
                  )
                  | inr (x, down, thrown, same) ↦ inr (
                      inr (
                        x,
                        thrown,
                        subst (WroteNothing any h) (sym same) (refl, refl, refl),
                        inr (inl (through, down)),
                      ))
                ]
        ]
