-- ===== src/Monitor/Escrow/Polling.antt =====
-- `pollEscrowEvents` of backend/src/stellar/soroban-monitor.service.ts: each event is seen to once, as far
-- back as the set of identifiers reaches.
pub mod Once
pub mod Again
use dabdub.Prelude.{
  ℕ, ◌+◌, ◌≤◌, ◌==◌, Bool, true, false, Option, none, some, String, List, [], ◌∷◌, ◌++◌,
  if◌then◌else◌, str_eq, ltb, length, truthy, ◌||◌,
}
use dabdub.Platform.Actions.{Call, AlertType, Error, Env, Action, Result, ok, err, History, perform}
use dabdub.Monitor.Escrow.{SorobanEvent, Tracked, EscrowState, Escrow, process_escrow_event}

-- `set.has(id)`
abbrev pub has : (id : String) → List String → Bool
has id [] = false
has id (x ∷ xs) = str_eq x id || has id xs

unfoldable pub dedupe_limit : ℕ
dedupe_limit = 10_000

abbrev pub drop_oldest : List String → List String
drop_oldest [] = []
drop_oldest (x ∷ xs) = xs

-- The identifier is added, and the oldest dropped when there are more than the limit.
unfoldable pub remember : (id : String) → List String → List String
unfolding dedupe_limit
remember id seen =
    let added = seen ++ id ∷ [] in
    if ltb dedupe_limit (length added) then drop_oldest added else added

-- `this.startLedger || undefined`
abbrev pub start_of : ℕ → Option ℕ
start_of ledger = if ledger == 0 then none else some ledger

module _ (env : Env) (escrow : Escrow) where
  -- The loop over the events, with the identifiers seen.
  unfoldable pub events_loop :
      List SorobanEvent
      → List Tracked
      → (seen : List String) → History
      → (Result (Unit {0}) × History) × List String
  unfolding process_escrow_event remember
  events_loop [] ts seen h = ((ok tt, h), seen)
  events_loop (event ∷ events) ts seen h = elim (has event.id seen) [
    | true ↦ events_loop events ts seen h
    | false ↦
        let (r, h') = process_escrow_event env escrow event ts h in
        elim r [
          | ok ts' ↦ events_loop events ts' (remember event.id seen) h'
          | err e ↦ ((err e, h'), remember event.id seen)
        ]
  ]

  -- The payments are read once; without any, the events are not looked at.
  abbrev pub handle_events :
      List SorobanEvent
      → List Tracked
      → (seen : List String) → History
      → (Result (Unit {0}) × History) × List String
  unfolding events_loop
  handle_events events [] seen h = ((ok tt, h), seen)
  handle_events events (t ∷ ts) seen h = events_loop events (t ∷ ts) seen h

  abbrev with_seen :
      EscrowState
      → (Result (Unit {0}) × History) × List String
      → (Result (Unit {0}) × History) × EscrowState
  with_seen s (end, seen) = (end, record s { processed_event_ids = seen })

  -- What follows the events that the network has sent.
  unfoldable pub receive_events :
      List SorobanEvent
      → (latest_ledger : ℕ) → EscrowState
      → History
      → (Result (Unit {0}) × History) × EscrowState
  unfolding perform handle_events
  receive_events [] latest s h = ((ok tt, h), s)
  receive_events (event ∷ events) latest s h =
      let moved = record s { start_ledger = latest } in
      let (r, h') = perform env Call.read_payments h in
      elim r [
        | ok a ↦
            with_seen moved
              (handle_events (event ∷ events) (escrow.payments h') s.processed_event_ids h')
        | err e ↦ ((err e, h'), moved)
      ]

  abbrev pub poll_contract :
      Option String → EscrowState → History → (Result (Unit {0}) × History) × EscrowState
  unfolding perform receive_events
  poll_contract none s h = ((ok tt, h), s)
  poll_contract (some contract) s h =
      let start = start_of s.start_ledger in
      let (r, h') = perform env (Call.read_events start) h in
      elim r [
        | ok a ↦ receive_events (escrow.events start h') (escrow.latest_ledger start h') s h'
        | err e ↦
            (perform env (Call.raise_alert AlertType.stellar_monitor "soroban-monitor.fetch") h', s)
      ]

  unfoldable pub poll_escrow_events :
      EscrowState → History → (Result (Unit {0}) × History) × EscrowState
  unfolding poll_contract
  poll_escrow_events s = poll_contract (truthy (some escrow.contract_id)) s
