-- ===== src/Payments/Creation.antt =====
-- New payments: `create` and `createBatch` of backend/src/payments/payments.service.ts.
pub mod Laws
use Prim.Native.String
use dabdub.Prelude.{
  ℕ, zero, suc, ◌+◌, ◌*◌, Bool, true, false, Option, none, some, String, List, [], ◌∷◌,
  if◌then◌else◌, map, length, ℤ, pos, negsuc, round_div, decimal, fixed_7, is_blank,
}
use dabdub.Platform.Entities.{Payment, PaymentStatus}
use dabdub.Platform.Actions.{
  Call, Error, Env, Action, ask, pure, throw, ◌>>=◌, ◌>>◌, perform, fresh_id, now,
}

-- `CreatePaymentDto`, after its validation: the amount, in millionths of a dollar, is positive.
pub record CreatePaymentDto : Type 0 where
  pub amount_usd : ℕ
  pub description : Option String
  pub customer_email : Option String
  pub expiry_minutes : Option ℕ

-- `BatchPaymentItemDto`, with the amount and memo that the method still checks itself.
pub record BatchPaymentItemDto : Type 0 where
  pub amount_usd : ℤ
  pub memo : Option String
  pub customer_email : Option String
  pub expiry_minutes : Option ℕ

pub record BatchPaymentResultDto : Type 0 where
  pub payment_ids : List String
  pub count : ℕ

-- `dto.expiryMinutes ?? 30`
abbrev pub minutes : Option ℕ → ℕ
minutes none = 30
minutes (some n) = n

-- `parseFloat((amountUsd / xlmRate).toFixed(7))`, in ten-millionths of a lumen.
abbrev pub to_xlm : (rate amount : ℕ) → ℕ
to_xlm rate amount = round_div (amount * 10_000_000) rate

abbrev pub stellar_uri : (address : String) → (amount_xlm : ℕ) → (memo : String) → String
stellar_uri address amount memo = String.◌++◌ "web+stellar:pay?destination=" (
    String.◌++◌ address (
      String.◌++◌ "&amount="
        (String.◌++◌ (fixed_7 amount) (String.◌++◌ "&memo=" (String.◌++◌ memo "&memo_type=text")))))

abbrev pub reference_of : (now : ℕ) → (random : String) → String
reference_of t random = String.◌++◌ "PAY-" (String.◌++◌ (decimal t) (String.◌++◌ "-" random))

-- `!item.amountUsd || item.amountUsd <= 0`
abbrev pub is_not_positive : ℤ → Bool
is_not_positive (pos zero) = true
is_not_positive (pos (suc n)) = false
is_not_positive (negsuc n) = true

-- `!item.memo || item.memo.trim().length === 0`
abbrev pub is_empty_memo : Option String → Bool
is_empty_memo none = true
is_empty_memo (some s) = is_blank s

abbrev pub complaint : ℕ → String → String
complaint i what = String.◌++◌ "Batch item [" (String.◌++◌ (decimal i) (String.◌++◌ "]: " what))

abbrev pub check_item : ℕ → BatchPaymentItemDto → Option Error
check_item i item =
    if is_not_positive item.amount_usd
    then some (Error.bad_request (complaint i "amountUsd must be greater than 0"))
    else if is_empty_memo item.memo
    then some (Error.bad_request (complaint i "memo must not be empty"))
    else none

-- The first complaint, counting the items from `i`.
abbrev pub check_items : ℕ → List BatchPaymentItemDto → Option Error
check_items i [] = none
check_items i (item ∷ items) = elim (check_item i item) [
  | some e ↦ some e
  | none ↦ check_items (i + 1) items
]

-- The amount of an item that has passed the checks.
abbrev pub to_amount : ℤ → ℕ
to_amount (pos n) = n
to_amount (negsuc n) = 0

-- The row of an item, with the texts drawn for it and the time of its round.
abbrev pub batch_payment :
    Env
    → (merchant_id : String) → (rate now i : ℕ) → BatchPaymentItemDto
    → (memo id random : String) → (now' : ℕ) → Payment
batch_payment env merchant rate t i item memo id random t' = record {
  id = id;
  reference = String.◌++◌ (reference_of t random) (String.◌++◌ "-B" (decimal i));
  merchant_id = merchant;
  amount_usd = to_amount item.amount_usd;
  amount_xlm = to_xlm rate (to_amount item.amount_usd);
  amount_usdc = none;
  status = PaymentStatus.pending;
  stellar_memo = memo;
  stellar_deposit_address = env.deposit_address;
  customer_wallet_address = none;
  tx_hash = none;
  description = item.memo;
  customer_email = item.customer_email;
  fee_usd = none;
  expires_at = t' + minutes item.expiry_minutes * 60_000;
  expiry_ledger = none;
  confirmed_at = none;
  refund_amount_usd = none;
  refund_reason = none;
  refund_tx_hash = none;
  refunded_at = none;
  settlement_id = none;
  created_at = t';
}

module _ (env : Env) where
  abbrev pub xlm_rate : Action ℕ
  unfolding perform
  xlm_rate = do perform env Call.read_rate; ask env.xlm_rate

  unfoldable pub create : (merchant_id : String) → CreatePaymentDto → Action Payment
  unfolding perform
  create merchant dto = do
    rate ← xlm_rate
    memo ← ask (env.random_text 8)
    perform env (Call.render_qr (stellar_uri env.deposit_address (to_xlm rate dto.amount_usd) memo))
    t ← now env
    id ← fresh_id env
    random ← ask (env.random_text 4)
    let payment : Payment = record {
      id = id;
      reference = reference_of t random;
      merchant_id = merchant;
      amount_usd = dto.amount_usd;
      amount_xlm = to_xlm rate dto.amount_usd;
      amount_usdc = none;
      status = PaymentStatus.pending;
      stellar_memo = memo;
      stellar_deposit_address = env.deposit_address;
      customer_wallet_address = none;
      tx_hash = none;
      description = dto.description;
      customer_email = dto.customer_email;
      fee_usd = none;
      expires_at = t + minutes dto.expiry_minutes * 60_000;
      expiry_ledger = none;
      confirmed_at = none;
      refund_amount_usd = none;
      refund_reason = none;
      refund_tx_hash = none;
      refunded_at = none;
      settlement_id = none;
      created_at = t;
    }
    perform env (Call.save_payment payment)
    perform env (
        Call.create_on_contract id env.deposit_address "0"
          (minutes dto.expiry_minutes * env.ledgers_per_minute))
    ledger ← ask env.contract_expiry
    perform env (Call.save_payment (record payment { expiry_ledger = some ledger }))
    pure (record payment { expiry_ledger = some ledger })

  -- One round of the loop that makes the records; the references share one time.
  unfoldable pub build_record :
      (merchant_id : String) → (rate now i : ℕ) → BatchPaymentItemDto → Action Payment
  unfolding perform
  build_record merchant rate t i item = do
    let amount = to_amount item.amount_usd
    memo ← ask (env.random_text 8)
    perform env (Call.render_qr (stellar_uri env.deposit_address (to_xlm rate amount) memo))
    t' ← now env
    id ← fresh_id env
    random ← ask (env.random_text 4)
    pure (batch_payment env merchant rate t i item memo id random t')

  unfoldable pub build_records :
      (merchant_id : String) → (rate now i : ℕ) → List BatchPaymentItemDto → Action (List Payment)
  unfolding build_record
  build_records merchant rate t i [] = pure []
  build_records merchant rate t i (item ∷ items) = do
    payment ← build_record merchant rate t i item
    rest ← build_records merchant rate t (i + 1) items
    pure (payment ∷ rest)

  unfoldable pub create_batch :
      (merchant_id : String) → List BatchPaymentItemDto → Action BatchPaymentResultDto
  unfolding build_records perform
  create_batch merchant items =
      let create_all : Action BatchPaymentResultDto = do
        rate ← xlm_rate
        t ← now env
        records ← build_records merchant rate t 0 items
        perform env (Call.save_payments records)
        pure (record { payment_ids = map (λ p. p.id) records; count = length records })
      in elim (check_items 0 items) [ some e ↦ throw e | none ↦ create_all ]
