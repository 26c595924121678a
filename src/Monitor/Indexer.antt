-- ===== src/Monitor/Indexer.antt =====
-- backend/src/stellar/soroban-event-indexer.service.ts: the contract's events, page by page, handed on to the
-- listeners in the backend or to the queue of dead letters.
pub mod Laws
pub mod Pages
mod Tests
use Prim.Native.Nat.{max}
use dabdub.Prelude.{
  ℕ, zero, suc, ◌+◌, Bool, true, false, Option, none, some, String, List, [], ◌∷◌, if◌then◌else◌,
  str_eq, ltb, length, truthy, ◌==◌,
}
use dabdub.Platform.Actions.{
  Call, Error, Env, Action, Result, ok, err, History, pure, throw, ask, ◌>>=◌, ◌>>◌, try_catch,
  perform, when,
}

-- The fields of an event's value that are read.
pub record EventValue : Type 0 where
  pub payment_reference : Option String
  pub reference : Option String
  pub tx_hash : Option String
  pub amount : Option (Option ℕ)  -- none: missing; some none: not a number
  pub asset : Option String
  pub settlement_id : Option String
  pub partner_reference : Option String

pub record RpcEvent : Type 0 where
  pub id : String
  pub paging_token : String
  pub ledger : Option ℕ
  pub topic : List String
  pub value : EventValue

-- The two events that the backend listens to.
pub data ContractEvent : Type 0 where
  payment_confirmed :
      (event_id payment_reference tx_hash : String)
      → (amount : ℕ) → (asset : String) → ContractEvent
  settlement_completed :
      (event_id settlement_id : String) → (partner_reference : Option String) → ContractEvent

-- What the network and the cache answer.
pub record Feed : Type 0 where
  pub contract_id : String
  pub last_ledger : History → Option ℕ
  pub page : (start : Option ℕ) → (cursor : Option String) → History → List RpcEvent
  pub latest_ledger : (start : Option ℕ) → (cursor : Option String) → History → ℕ

abbrev pub page_limit : ℕ
page_limit = 200

-- `String(a ?? b ?? '')`
abbrev pub first_text : Option String → Option String → String
first_text (some a) b = a
first_text none (some b) = b
first_text none none = ""

-- `Number(x ?? 0)`
abbrev amount_of : Option (Option ℕ) → Option ℕ
amount_of none = some 0
amount_of (some n) = n

abbrev asset_of : Option String → String
asset_of none = "USDC"
asset_of (some a) = a

abbrev invalid : Error
invalid = Error.failure "Invalid event payload"

abbrev payment_dto :
    (id : String)
    → (reference tx_hash : Option String) → (amount : Option ℕ) → (asset : String)
    → Result ContractEvent
payment_dto id (some r) (some t) (some n) asset =
    ok (ContractEvent.payment_confirmed id r t n asset)
payment_dto id _ _ _ asset = err invalid

unfoldable pub to_payment_confirmed_dto : RpcEvent → Result ContractEvent
to_payment_confirmed_dto raw =
    let v = raw.value in
    payment_dto raw.id (truthy (some (first_text v.payment_reference v.reference)))
      (truthy (some (first_text v.tx_hash none))) (amount_of v.amount) (asset_of v.asset)

abbrev settlement_dto :
    (id : String) → (settlement_id partner : Option String) → Result ContractEvent
settlement_dto id (some s) partner = ok (ContractEvent.settlement_completed id s partner)
settlement_dto id none partner = err invalid

unfoldable pub to_settlement_completed_dto : RpcEvent → Result ContractEvent
to_settlement_completed_dto raw =
    let v = raw.value in
    settlement_dto raw.id (truthy (some (first_text v.settlement_id v.reference)))
      v.partner_reference

-- An event of one of the two topics is read; any other is none of ours.
abbrev read_topic : Option String → RpcEvent → Option (Result ContractEvent)
unfolding to_payment_confirmed_dto to_settlement_completed_dto
read_topic none raw = none
read_topic (some topic) raw =
    if str_eq topic "payment_confirmed"
    then some (to_payment_confirmed_dto raw)
    else if str_eq topic "settlement_completed"
    then some (to_settlement_completed_dto raw)
    else none

abbrev first_topic : List String → Option String
first_topic [] = none
first_topic (t ∷ ts) = truthy (some t)

-- None is an event to pass over, an error one whose value is not right.
unfoldable pub parse_event : RpcEvent → Option (Result ContractEvent)
unfolding read_topic
parse_event raw = read_topic (first_topic raw.topic) raw

-- The call that hands an event on.
abbrev pub emitted : ContractEvent → Call
emitted (ContractEvent.payment_confirmed id r t n a) = Call.emit "soroban.payment.confirmed" id
emitted (ContractEvent.settlement_completed id s p) = Call.emit "soroban.settlement.completed" id

abbrev pub or_same : Option ℕ → ℕ → ℕ
or_same none n = n
or_same (some l) n = l

module _ (env : Env) where
  abbrev pub enqueue_dead_letter : RpcEvent → (latest : ℕ) → Action ℕ
  unfolding perform
  enqueue_dead_letter e latest = perform env (Call.add_dead_letter e.id) >> pure latest

  -- The body of the loop's `try`, on what was read, with its `catch`.
  unfoldable pub handle_parsed : RpcEvent → Option (Result ContractEvent) → (latest : ℕ) → Action ℕ
  unfolding perform enqueue_dead_letter
  handle_parsed e none latest = pure latest
  handle_parsed e (some (err x)) latest = enqueue_dead_letter e latest
  handle_parsed e (some (ok dto)) latest =
      try_catch (perform env (emitted dto) >> pure (max latest (or_same e.ledger latest)))
        (λ _. enqueue_dead_letter e latest)

  -- The events of a page, with the highest ledger seen.
  unfoldable pub index_events : List RpcEvent → (latest : ℕ) → Action ℕ
  unfolding handle_parsed parse_event
  index_events [] latest = pure latest
  index_events (e ∷ es) latest = handle_parsed e (parse_event e) latest >>= index_events es

  module _ (feed : Feed) where
    abbrev pub last_token : List RpcEvent → Option String → Option String
    last_token [] token = token
    last_token (e ∷ es) token = last_token es (some e.paging_token)

    -- The pages, from a ledger or a cursor on; none is a loop that has used up its fuel.
    unfoldable pub index_pages :
        (fuel : ℕ)
        → (start : Option ℕ) → (cursor : Option String) → (latest : ℕ) → Action (Option ℕ)
    unfolding perform index_events
    index_pages zero start cursor latest = pure none
    index_pages (suc fuel) start cursor latest = do
      perform env (Call.read_page start cursor)
      events ← ask (feed.page start cursor)
      tip ← ask (feed.latest_ledger start cursor)
      seen ← index_events events (max latest tip)
      if ltb (length events) page_limit
          then pure (some seen)
          else index_pages fuel none (last_token events cursor) seen

    abbrev start_after : (last_ledger : ℕ) → Option ℕ
    start_after last = if ltb 0 last then some (last + 1) else none

    -- The end of a poll: the cursor is saved if it has moved. False is a loop without fuel.
    abbrev save_progress : (last_ledger : ℕ) → (seen : Option ℕ) → Action Bool
    unfolding perform
    save_progress last none = pure false
    save_progress last (some seen) =
        when (ltb last seen) (perform env (Call.save_cursor seen)) >> pure true

    -- The `try` block.
    unfoldable pub index : (fuel : ℕ) → Action Bool
    unfolding perform index_pages save_progress
    index fuel = do
      perform env Call.read_cursor
      cached ← ask feed.last_ledger
      seen ← index_pages fuel (start_after (or_same cached 0)) none (or_same cached 0)
      save_progress (or_same cached 0) seen

    abbrev poll_contract :
        (fuel : ℕ) → (contract : Option String) → History → (Result Bool × History) × Bool
    unfolding index
    poll_contract fuel none h = ((ok true, h), false)
    poll_contract fuel (some contract) h = (index fuel h, false)

    -- A poll, with the flag that the one before may still hold; it is taken back however the poll ends.
    unfoldable pub poll_events :
        (fuel : ℕ) → (polling : Bool) → History → (Result Bool × History) × Bool
    unfolding poll_contract
    poll_events fuel true h = ((ok true, h), true)
    poll_events fuel false h = poll_contract fuel (truthy (some feed.contract_id)) h
