-- ===== src/Monitor/Escrow.antt =====
-- backend/src/stellar/soroban-monitor.service.ts: the events of the escrow contract and the payments whose
-- status they set. The service keeps the identifiers of the events that it has seen and the ledger to
-- ask from.
pub mod Polling
pub mod Laws
mod Tests
use dabdub.Prelude.{
  ℕ, ◌*◌, Bool, true, false, Option, none, some, String, List, [], ◌∷◌, ◌++◌, if◌then◌else◌, str_eq,
  ltb, length, truthy, to_lower, ◌||◌, is_text,
}
use Prim.Native.String
use dabdub.Platform.Entities.{Payment, PaymentStatus, same_status}
use dabdub.Platform.Actions.{
  Call, AlertType, Env, Action, Result, ok, err, History, pure, ask, ◌>>=◌, ◌>>◌, perform,
}

pub data EscrowEventTopic : Type 0 where
  deposit release refund expired dispute : EscrowEventTopic

-- The two spellings of the payment's identifier.
pub record EscrowEventPayload : Type 0 where
  pub payment_id : Option String
  pub payment_id_camel : Option String

pub record SorobanEvent : Type 0 where
  pub id : String
  pub topic : List String
  pub value : Option EscrowEventPayload  -- none: not an object

-- A payment with the identifier that its metadata has for it in the contract.
pub record Tracked : Type 0 where
  pub row : Payment
  pub escrow_payment_id : Option String

pub record EscrowState : Type 0 where
  pub processed_event_ids : List String  -- the oldest first
  pub start_ledger : ℕ

-- What the network, the contract and the database answer.
pub record Escrow : Type 0 where
  pub contract_id : String
  pub events : (start_ledger : Option ℕ) → History → List SorobanEvent
  pub latest_ledger : (start_ledger : Option ℕ) → History → ℕ
  pub payments : History → List Tracked
  pub balance : (escrow_payment_id : String) → History → Option ℕ  -- stroops

abbrev topic_of : (normalized : String) → Option EscrowEventTopic
topic_of t =
    if str_eq t "deposit"
    then some EscrowEventTopic.deposit
    else if str_eq t "release"
    then some EscrowEventTopic.release
    else if str_eq t "refund"
    then some EscrowEventTopic.refund
    else if str_eq t "expired"
    then some EscrowEventTopic.expired
    else if str_eq t "dispute"
    then some EscrowEventTopic.dispute
    else none

-- The second topic, or else the first.
abbrev pub extract_topic : List String → Option EscrowEventTopic
extract_topic [] = none
extract_topic (t ∷ []) = topic_of (to_lower t)
extract_topic (_ ∷ t ∷ _) = topic_of (to_lower t)

abbrev pub normalize_payload : Option EscrowEventPayload → EscrowEventPayload
normalize_payload (some p) = p
normalize_payload none = record { payment_id = none; payment_id_camel = none }

-- `payload.payment_id ?? payload.paymentId`, where the empty text stands for none.
abbrev pub payment_id_of : EscrowEventPayload → Option String
payment_id_of p = elim p.payment_id [
  | none ↦ truthy p.payment_id_camel
  | some id ↦ truthy (some id)
]

abbrev pub matches_escrow_payment_id : Tracked → (payment_id : String) → Bool
matches_escrow_payment_id t id = is_text t.escrow_payment_id id || str_eq t.row.reference id

abbrev pub map_topic_to_status : EscrowEventTopic → PaymentStatus
map_topic_to_status EscrowEventTopic.deposit = PaymentStatus.confirmed
map_topic_to_status EscrowEventTopic.release = PaymentStatus.settled
map_topic_to_status EscrowEventTopic.refund = PaymentStatus.refunded
map_topic_to_status EscrowEventTopic.expired = PaymentStatus.expired
map_topic_to_status EscrowEventTopic.dispute = PaymentStatus.failed

unfoldable pub find_tracked : (payment_id : String) → List Tracked → Option Tracked
find_tracked id [] = none
find_tracked id (t ∷ ts) = if matches_escrow_payment_id t id then some t else find_tracked id ts

-- The list after the payment that `find_tracked` finds has been changed in place.
abbrev pub put_tracked : (payment_id : String) → Tracked → List Tracked → List Tracked
put_tracked id new [] = []
put_tracked id new (t ∷ ts) =
    let rest = put_tracked id new ts in
    if matches_escrow_payment_id t id then new ∷ ts else t ∷ rest

-- The amount that is expected, in stroops: none counts as nothing.
abbrev pub expected_stroops : Payment → ℕ
expected_stroops p = elim p.amount_usdc [ none ↦ 0 | some amount ↦ amount * 10 ]

abbrev pub row_with_status : PaymentStatus → Payment → Payment
row_with_status next p = record p { status = next }

module _ (env : Env) (escrow : Escrow) where
  abbrev pub check_balance : Payment → (on_chain : Option ℕ) → Action Bool
  unfolding perform
  check_balance p none = pure false
  check_balance p (some balance) =
      if ltb balance (expected_stroops p)
      then (perform env (
            Call.raise_alert AlertType.stellar_monitor
              (String.◌++◌ "soroban-monitor.short-paid:" p.id))
          >> pure true)
      else pure false

  -- Whether too little has been deposited, as far as the contract can tell.
  unfoldable pub verify_deposit_balance : Payment → (escrow_payment_id : String) → Action Bool
  unfolding check_balance
  verify_deposit_balance p id = ask (escrow.balance id) >>= check_balance p

  unfoldable pub set_status :
      PaymentStatus → (payment_id : String) → Tracked → List Tracked → Action (List Tracked)
  unfolding perform
  set_status next id t ts =
      if same_status t.row.status next
      then pure ts
      else let row = row_with_status next t.row in
        perform env (Call.save_payment row) >> pure (put_tracked id (record t { row = row }) ts)

  -- Only a deposit is checked against the balance.
  abbrev pub is_short_paid : EscrowEventTopic → Payment → (payment_id : String) → Action Bool
  unfolding verify_deposit_balance
  is_short_paid EscrowEventTopic.deposit p id = verify_deposit_balance p id
  is_short_paid _ p id = pure false

  -- What an event of this topic does to the payment that it matches.
  unfoldable pub apply_topic :
      EscrowEventTopic → (payment_id : String) → Tracked → List Tracked → Action (List Tracked)
  unfolding is_short_paid set_status
  apply_topic topic id t ts = is_short_paid topic t.row id >>= λ short_paid.
      if short_paid then pure ts else set_status (map_topic_to_status topic) id t ts

  abbrev pub apply_found :
      EscrowEventTopic
      → (payment_id : String) → Option Tracked
      → List Tracked
      → Action (List Tracked)
  unfolding apply_topic
  apply_found topic id none ts = pure ts
  apply_found topic id (some t) ts = apply_topic topic id t ts

  abbrev pub apply_payload :
      EscrowEventTopic → (payment_id : Option String) → List Tracked → Action (List Tracked)
  unfolding apply_found find_tracked
  apply_payload topic none ts = pure ts
  apply_payload topic (some id) ts = apply_found topic id (find_tracked id ts) ts

  abbrev pub apply_event :
      Option EscrowEventTopic → EscrowEventPayload → List Tracked → Action (List Tracked)
  unfolding apply_payload
  apply_event none payload ts = pure ts
  apply_event (some topic) payload ts = apply_payload topic (payment_id_of payload) ts

  -- The payments, changed in place by the events before this one, and as this one leaves them.
  unfoldable pub process_escrow_event : SorobanEvent → List Tracked → Action (List Tracked)
  unfolding apply_event
  process_escrow_event event ts =
      apply_event (extract_topic event.topic) (normalize_payload event.value) ts
