-- ===== src/Payments/Refund/Laws.antt =====
-- What a confirmation and a refund guarantee.
use Prim.Native.String
use dabdub.Prelude.{
  truthy, ℕ, ◌*◌, ◌≤◌, ◌<◌, ◌≡◌, ◌⊎◌, inl, inr, true, Option, none, some, String, List, ◌∷◌, refl,
  sym, ap, ◌∙◌, not, arith, Option-cases, ltb, last_segment, round_div_le,
}
use native.Mathlib.Nat.{mul-le-mul_left}
use dabdub.Platform.Entities.{Payment, PaymentStatus}
use dabdub.Platform.Actions.{
  Call, Error, Env, Result, err, History, written, sent, perform, ◌>>◌, pure, try_catch, throw,
}
use dabdub.Platform.Loops.{Keeps, >>-Keeps}
use dabdub.Platform.Runs.{perform->>, Keeps-run, if-cases, try_catch-cases}
use dabdub.Payments.Refund.{
  is_settled, RefundPaymentDto, refund_amount, Transfer, transfer_of, refunded_row, refund_error,
  refund_amount_checked, refund_to, announce_refund, record_refund, send_refund, refund,
}

-- The amount paid in the asset that a refund is sent in, in ten-millionths.
abbrev pub paid_in : Payment → Option ℕ → ℕ
paid_in p none = p.amount_xlm
paid_in p (some n) = n * 10

transfer_of-le :
    (r : ℕ) (p : Payment) (usdc : Option ℕ)
    → 0 < p.amount_usd
    → r ≤ p.amount_usd
    → (transfer_of r p usdc).amount ≤ paid_in p usdc
transfer_of-le r p none some_paid small =
    round_div_le _ _ _ some_paid (mul-le-mul_left p.amount_xlm small)
transfer_of-le r p (some n) some_paid small =
    round_div_le _ _ _ some_paid (mul-le-mul_left (n * 10) small)

-- The money sent and the rows written so far.
abbrev pub Books : List (String × ℕ × String) → List Payment → History → Type 0
Books out rows h = (sent h ≡ out) × (written h ≡ rows)

abbrev pub transfer : Payment → RefundPaymentDto → Transfer
transfer p dto = transfer_of (refund_amount dto.amount_usd p) p p.amount_usdc

module _ (env : Env) (p : Payment) (merchant : String) (dto : RefundPaymentDto) where
  announce_refund-Keeps :
      (hash : String) (out : List (String × ℕ × String)) (rows : List Payment)
      → Keeps (Books out rows) (announce_refund env p merchant dto hash)
  unfolding announce_refund perform sent written
  announce_refund-Keeps hash out rows h k = elim (Option-cases (truthy p.customer_email)) [
    | inl nobody ↦ ground arith
    | inr (to, known) ↦ ground arith
  ]

  module _ (wallet : String) (t : Transfer) where
    -- Nothing was sent or written, or the transfer was sent, and then either nothing was written and
    -- the method throws, or the refund was written.
    abbrev pub SentOnce : Payment → Result Payment → History → History → Type 0
    SentOnce q r h h' =
        (Books (sent h) (written h) h' × ((e : Error) × (r ≡ err e)))
        ⊎ (Books ((wallet, t.amount, t.asset) ∷ sent h) (written h) h'
            × ((e : Error) × (r ≡ err e)))
        ⊎ (Books ((wallet, t.amount, t.asset) ∷ sent h) (q ∷ written h) h')

    record_refund-Keeps :
        (h h' : History) (r : Result Payment)
        → record_refund env p merchant dto h ≡ (r, h')
        → Books (sent h) (written h) h' × ((e : Error) × (r ≡ err e))
          ⊎ Books (sent h) (refunded_row dto (env.tx_hash h) (env.now h) p ∷ written h) h'
    unfolding record_refund sent written
    record_refund-Keeps h h' r e =
        let row = refunded_row dto (env.tx_hash h) (env.now h) p in
        let h2 = Call.save_payment row ∷ h in
        let announce = announce_refund env p merchant dto (env.tx_hash h) in
        elim (perform->> env (Call.save_payment row) (announce >> pure row) h h' r e) [
          | inr unsaved ↦ inl (ground arith)
          | inl rest ↦ inr (
              Keeps-run (Books (sent h) (row ∷ written h)) (announce >> pure row) h2 h' r
                (>>-Keeps _ announce (λ _. pure row)
                  (announce_refund-Keeps (env.tx_hash h) (sent h) (row ∷ written h))
                  (λ _ k fine. fine))
                (refl, refl) rest)
        ]

    send_refund-SentOnce :
        (h h' : History) (r : Result Payment)
        → send_refund env p merchant dto wallet t h ≡ (r, h')
        → (hash : String) × (time : ℕ) × SentOnce (refunded_row dto hash time p) r h h'
    unfolding send_refund sent written
    send_refund-SentOnce h h' r e =
        let call =
          Call.send_payment wallet t.amount t.asset
            (String.◌++◌ "REFUND-" (last_segment p.reference)) in
        (
          env.tx_hash (call ∷ h),
          env.now (call ∷ h),
          elim (perform->> env call (record_refund env p merchant dto) h h' r e) [
            | inr unsent ↦ inl ground arith
            | inl rest ↦ inr (record_refund-Keeps (call ∷ h) h' r rest)
          ],
        )

truthy-some : (t : Option String) (s : String) → truthy t ≡ some s → t ≡ some s
truthy-some none s e = absurd (ground arith)
truthy-some (some String.[]) s e = absurd (ground arith)
truthy-some (some (String.◌∷◌ c t)) s e = e

-- A refund that may be sent: the payment is settled, its customer's wallet is known, and no more is
-- asked for than was paid.
pub record IsRefundable (p : Payment) (dto : RefundPaymentDto) (wallet : String) : Type 0 where
  pub settled : p.status ≡ PaymentStatus.settled
  pub known : p.customer_wallet_address ≡ some wallet
  pub covered : refund_amount dto.amount_usd p ≤ p.amount_usd

is_settled-settled : (s : PaymentStatus) → is_settled s ≡ true → s ≡ PaymentStatus.settled
is_settled-settled s e = ground arith

throw-Books :
    {x : Error} (h h' : History) (r : Result Payment)
    → throw x h ≡ (r, h')
    → Books (sent h) (written h) h' × ((e : Error) × (r ≡ err e))
throw-Books {x} h h' r e =
    let same : h' ≡ h = sym (ap (λ z. z.1) e) in
    ((ap sent same, ap written same), (x, sym (ap (λ z. z.0) e)))

-- A run of `refund` on the payment: nothing was sent or written and it throws, or the one transfer was
-- sent, and then nothing was written and it throws, or the refund was written.
abbrev pub Refunded :
    Payment
    → RefundPaymentDto
    → (wallet hash : String) → (time : ℕ) → Result Payment
    → History
    → History
    → Type 0
Refunded p dto wallet hash time r h h' =
    let out = (wallet, (transfer p dto).amount, (transfer p dto).asset) ∷ sent h in
    (Books (sent h) (written h) h' × ((e : Error) × (r ≡ err e)))
    ⊎ (IsRefundable p dto wallet
        × ((Books out (written h) h' × ((e : Error) × (r ≡ err e)))
            ⊎ Books out (refunded_row dto hash time p ∷ written h) h'))

module _ (env : Env) (p : Payment) (merchant : String) (dto : RefundPaymentDto) where
  amount_checked-Refunded :
      (wallet : String) (h h' : History) (r : Result Payment)
      → p.status ≡ PaymentStatus.settled
      → p.customer_wallet_address ≡ some wallet
      → refund_amount_checked env p merchant dto wallet h ≡ (r, h')
      → (hash : String) × (time : ℕ) × Refunded p dto wallet hash time r h h'
  unfolding refund_amount_checked
  amount_checked-Refunded wallet h h' r settled known e =
      let amount = refund_amount dto.amount_usd p in
      let send = send_refund env p merchant dto wallet (transfer p dto) in
      elim (if-cases (ltb p.amount_usd amount) _ (try_catch send (λ x. throw (refund_error x))) h
        (r, h') e) [
          | inl (big, run) ↦ ("", 0, inl (throw-Books h h' r run))
          | inr (fine, run) ↦
              let able : IsRefundable p dto wallet = record {
                settled = settled;
                known = known;
                covered = ground arith;
              } in
              let (r', sending, same) = try_catch-cases send refund_error h h' r run in
              let (hash, time, once) =
                send_refund-SentOnce env p merchant dto wallet (transfer p dto) h h' r' sending in
              (hash, time, caught able hash time r' once same)
        ]
    where
      still :
          (r' : Result Payment) (x : Error)
          → r' ≡ err x
          → ((r ≡ r') ⊎ ((y : Error) × (r' ≡ err y) × (r ≡ err (refund_error y))))
          → (y : Error) × (r ≡ err y)
      still r' x bad (inl same) = (x, same ∙ bad)
      still r' x bad (inr (y, _, worded)) = (refund_error y, worded)

      caught :
          IsRefundable p dto wallet
          → (hash : String) (time : ℕ) (r' : Result Payment)
          → SentOnce env p merchant dto wallet
              (transfer p dto)
              (refunded_row dto hash time p)
              r'
              h
              h'
          → ((r ≡ r') ⊎ ((x : Error) × (r' ≡ err x) × (r ≡ err (refund_error x))))
          → Refunded p dto wallet hash time r h h'
      caught able hash time r' (inl (books, (x, bad))) same = inl (books, still r' x bad same)
      caught able hash time r' (inr (inl (books, (x, bad)))) same =
          inr (able, inl (books, still r' x bad same))
      caught able hash time r' (inr (inr books)) same = inr (able, inr books)

  refund_to-Refunded :
      (to : Option String) (h h' : History) (r : Result Payment)
      → p.status ≡ PaymentStatus.settled
      → truthy p.customer_wallet_address ≡ to
      → refund_to env p merchant dto to h ≡ (r, h')
      → (wallet hash : String) × (time : ℕ) × Refunded p dto wallet hash time r h h'
  unfolding refund_to sent written
  refund_to-Refunded none h h' r settled known e = ("", "", 0, inl (throw-Books h h' r e))
  refund_to-Refunded (some wallet) h h' r settled known e =
      elim (perform->> env (Call.find_merchant merchant)
        (refund_amount_checked env p merchant dto wallet) h h' r e) [
          | inr (same, bad) ↦ (wallet, "", 0, inl ((ap sent same, ap written same), bad))
          | inl run ↦
              let (hash, time, refunded) =
                amount_checked-Refunded wallet (Call.find_merchant merchant ∷ h) h' r settled
                  (truthy-some p.customer_wallet_address wallet known) run in
              (wallet, hash, time, refunded)
        ]

-- However a run of `refund` ends: nothing was sent or written, and it throws; or the payment exists,
-- is settled and has a wallet, no more is refunded than was paid, and the one transfer was sent to
-- that wallet, and then either nothing was written and it throws, or the refund was written once.
pub refund-Refunded :
    (env : Env) (found : Option Payment) (merchant : String) (dto : RefundPaymentDto)
    (h h' : History) (r : Result Payment)
    → refund env found merchant dto h ≡ (r, h')
    → (Books (sent h) (written h) h' × ((e : Error) × (r ≡ err e)))
      ⊎ ((p : Payment) × (wallet hash : String) × (time : ℕ) × (found ≡ some p)
          × Refunded p dto wallet hash time r h h')
unfolding refund
refund-Refunded env none merchant dto h h' r e = inl (throw-Books h h' r e)
refund-Refunded env (some p) merchant dto h h' r e =
    elim (if-cases (not (is_settled p.status)) _
      (refund_to env p merchant dto (truthy p.customer_wallet_address)) h (r, h') e) [
        | inl (unsettled, run) ↦ inl (throw-Books h h' r run)
        | inr (done, run) ↦
            let (wallet, hash, time, refunded) =
              refund_to-Refunded env p merchant dto (truthy p.customer_wallet_address) h h' r
                (is_settled-settled p.status (ground arith)) refl run in
            inr (p, wallet, hash, time, refl, refunded)
      ]

-- The amount of a refund, in the asset it is sent in, is at most what the customer paid in it.
refund_bounded :
    (p : Payment) (dto : RefundPaymentDto) (wallet : String)
    → IsRefundable p dto wallet
    → 0 < p.amount_usd
    → (transfer p dto).amount ≤ paid_in p p.amount_usdc
refund_bounded p dto wallet able some_paid =
    transfer_of-le (refund_amount dto.amount_usd p) p p.amount_usdc some_paid able.covered
