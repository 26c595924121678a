-- ===== src/Contract.antt =====
-- backend/src/blockchain-wallet/soroban.service.ts: the mirror of the escrow contract in the backend,
-- with the pause switch, the lock against calls inside calls and the log of events. The calls of the
-- contract itself are not written yet in the source, which only logs.
pub mod Laws
mod Tests
use dabdub.Prelude.{ℕ, String, Bool, true, false, Option, none, some, List, [], ◌∷◌, ◌++◌}

pub data ContractEvent : Type 0 where
  contract_paused contract_unpaused : (admin : String) → (timestamp : ℕ) → ContractEvent

pub data ContractError : Type 0 where
  contract_paused_error reentrant_call_error : ContractError

pub record SorobanService : Type 0 where
  pub paused : Bool
  pub locked : Bool
  pub event_log : List ContractEvent  -- the oldest first

-- The service as it is made.
abbrev pub initial : SorobanService
initial = record { paused = false; locked = false; event_log = [] }

-- What a method does to the service, and the error that it throws.
abbrev pub Outcome : Type 0
Outcome = Option ContractError × SorobanService

unfoldable pub pause : (admin_id : String) → (now : ℕ) → SorobanService → SorobanService
pause admin now s = elim s.paused [
  | true ↦ s
  | false ↦ record s {
    paused = true;
    event_log = s.event_log ++ ContractEvent.contract_paused admin now ∷ [];
  }
]

unfoldable pub unpause : (admin_id : String) → (now : ℕ) → SorobanService → SorobanService
unpause admin now s = elim s.paused [
  | false ↦ s
  | true ↦ record s {
    paused = false;
    event_log = s.event_log ++ ContractEvent.contract_unpaused admin now ∷ [];
  }
]

abbrev pub require_not_paused : SorobanService → Option ContractError
require_not_paused s = elim s.paused [
  | true ↦ some ContractError.contract_paused_error
  | false ↦ none
]

abbrev pub acquire_lock : SorobanService → Outcome
acquire_lock s = elim s.locked [
  | true ↦ (some ContractError.reentrant_call_error, s)
  | false ↦ (none, record s { locked = true })
]

abbrev pub release_lock : SorobanService → SorobanService
release_lock s = record s { locked = false }

-- `acquireLock(); try { body } finally { releaseLock() }`
abbrev pub with_lock : (SorobanService → Outcome) → SorobanService → Outcome
with_lock body s =
    let (e, s') = acquire_lock s in
    elim e [ some x ↦ (some x, s') | none ↦ ((body s').0, release_lock (body s').1) ]

-- The shape of the three methods below.
abbrev pub guarded : (SorobanService → Outcome) → SorobanService → Outcome
guarded body s = elim (require_not_paused s) [ some x ↦ (some x, s) | none ↦ with_lock body s ]

-- The call of the contract, of which the source has only the log line.
abbrev pub not_written : SorobanService → Outcome
not_written s = (none, s)

unfoldable pub deposit : (stellar_address amount_usdc : String) → SorobanService → Outcome
deposit address amount = guarded not_written

unfoldable pub release : (payment_id merchant_address : String) → SorobanService → Outcome
release payment merchant = guarded not_written

unfoldable pub refund : (payment_id customer_address : String) → SorobanService → Outcome
refund payment customer = guarded not_written

abbrev pub get_balance : (stellar_address : String) → String
get_balance address = "0"

abbrev pub get_stake_balance : (stellar_address : String) → String
get_stake_balance address = "0"
