-- ===== src/Monitor/Verification.antt =====
-- `verifyPayment` of backend/src/stellar/stellar.service.ts, and what Horizon and the database answer
-- to the monitor.
use dabdub.Prelude.{
  ℕ, Bool, true, false, not, ◌&&◌, ◌||◌, Option, none, some, String, List, [], ◌∷◌, if◌then◌else◌,
  str_eq, is_text, truthy,
}
use dabdub.Platform.Entities.{Payment}
use dabdub.Platform.Actions.{Call, Env, Action, History, pure, ask, ◌>>=◌, ◌>>◌, try_catch, perform}

-- A transaction of the deposit account, as far as the monitor reads it.
pub record Transaction : Type 0 where
  pub hash : String
  pub paging_token : String
  pub memo : Option String

-- An operation of a transaction; the amount counts ten-millionths.
pub record Operation : Type 0 where
  pub type : String
  pub asset_type : String
  pub asset_code : Option String
  pub asset_issuer : Option String
  pub amount : ℕ
  pub from : Option String

-- The answers of Horizon and of the database's queries.
pub record Chain : Type 0 where
  pub usdc_issuer : String
  pub transactions : (address : String) → (cursor : Option String) → History → List Transaction
  pub memo : (hash : String) → History → Option String
  pub operations : (hash : String) → History → List Operation
  pub pending_payment : (memo : String) → History → Option Payment
  pub expired_payments : (now : ℕ) → History → List Payment

pub record Paid : Type 0 where
  pub amount : ℕ
  pub asset : String
  pub from : Option String

abbrev pub is_usdc : (issuer : String) → Operation → Bool
is_usdc issuer op = is_text op.asset_code "USDC" && is_text op.asset_issuer issuer

abbrev pub is_xlm : Operation → Bool
is_xlm op = str_eq op.asset_type "native"

abbrev pub is_payment : (issuer : String) → Operation → Bool
is_payment issuer op = str_eq op.type "payment" && (is_usdc issuer op || is_xlm op)

abbrev pub paid_by : (issuer : String) → Operation → Paid
paid_by issuer op = record {
  amount = op.amount;
  asset = if is_usdc issuer op then "USDC" else "XLM";
  from = op.from;
}

-- The first operation that pays in dollars or lumens; none is `{ verified: false }`.
unfoldable pub find_payment : (issuer : String) → List Operation → Option Paid
find_payment issuer [] = none
find_payment issuer (op ∷ ops) =
    if is_payment issuer op then some (paid_by issuer op) else find_payment issuer ops

-- `expectedMemo && memo !== expectedMemo`
abbrev pub is_other_memo : (expected : String) → (memo : Option String) → Bool
is_other_memo expected memo = elim (truthy (some expected)) [
  | none ↦ false
  | some m ↦ not (is_text memo m)
]

module _ (env : Env) (chain : Chain) where
  abbrev pub find_paid : (hash : String) → (other : Bool) → Action (Option Paid)
  unfolding perform find_payment
  find_paid hash true = pure none
  find_paid hash false = do
    perform env (Call.read_operations hash)
    ask (λ h. find_payment chain.usdc_issuer (chain.operations hash h))

  abbrev pub check_transaction : (hash expected_memo : String) → Action (Option Paid)
  unfolding find_paid
  check_transaction hash expected = do
    memo ← ask (chain.memo hash)
    find_paid hash (is_other_memo expected memo)

  -- The method takes an expected amount as well, and does not look at it.
  unfoldable pub verify_payment :
      (hash expected_memo : String) → (expected_amount : Option ℕ) → Action (Option Paid)
  unfolding perform check_transaction
  verify_payment hash expected amount =
      try_catch (perform env (Call.read_transaction hash) >> check_transaction hash expected)
        (λ _. pure none)
