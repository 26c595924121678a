-- ===== src/Monitor/Scan.antt =====
-- `scanPendingPayments` of backend/src/stellar/stellar-monitor.service.ts. The service keeps a cursor and
-- the outcome of its last run. `pollTransferEvents`, which `SorobanMonitorService` does not declare, is
-- a parameter.
pub mod Laws
pub mod Runs
use Prim.Native.String
use dabdub.Prelude.{
  ℕ, Bool, true, false, Option, none, some, String, List, [], ◌∷◌, if◌then◌else◌, truthy,
}
use dabdub.Platform.Entities.{Payment}
use dabdub.Platform.Actions.{
  Call, AlertType, Error, message, Env, Action, Result, ok, err, History, pure, ask, ◌>>=◌, ◌>>◌,
  try_catch, perform,
}
use dabdub.Monitor.Verification.{Transaction, Chain, Paid, verify_payment}
use dabdub.Monitor.Confirmation.{confirm_payment, expire_old_payments}

pub data RunStatus : Type 0 where
  idle run_ok run_error : RunStatus

pub record MonitorState : Type 0 where
  pub cursor : Option String
  pub last_run_at : Option ℕ
  pub last_run_status : RunStatus
  pub last_run_error : Option String

abbrev pub mark_run_success : (now : ℕ) → MonitorState → MonitorState
mark_run_success t s = record s {
  last_run_at = some t;
  last_run_status = RunStatus.run_ok;
  last_run_error = none;
}

abbrev pub mark_run_failure : Error → (now : ℕ) → MonitorState → MonitorState
mark_run_failure e t s = record s {
  last_run_at = some t;
  last_run_status = RunStatus.run_error;
  last_run_error = some (message e);
}

module _ (env : Env) (chain : Chain) where
  -- The `try` and `catch` about a verified payment.
  unfoldable pub handle_verified : Transaction → Payment → Option Paid → Action (Unit {0})
  unfolding perform confirm_payment
  handle_verified tx p none = pure tt
  handle_verified tx p (some paid) = try_catch (confirm_payment env p tx.hash paid >> pure tt) (λ _.
      perform env
        (Call.raise_alert AlertType.stellar_monitor (String.◌++◌ "stellar-monitor.confirm:" p.id)))

  unfoldable pub handle_matched : Transaction → (memo : String) → Option Payment → Action (Unit {0})
  unfolding verify_payment handle_verified
  handle_matched tx memo none = pure tt
  handle_matched tx memo (some p) =
      verify_payment env chain tx.hash memo none >>= handle_verified tx p

  unfoldable pub handle_memo : Transaction → Option String → Action (Unit {0})
  unfolding perform handle_matched
  handle_memo tx none = pure tt
  handle_memo tx (some memo) = do
    perform env (Call.find_pending memo)
    matched ← ask (chain.pending_payment memo)
    handle_matched tx memo matched

  -- One round of the loop, after the cursor has been set.
  unfoldable pub handle_transaction : Transaction → Action (Unit {0})
  unfolding handle_memo
  handle_transaction tx = handle_memo tx (truthy tx.memo)

  -- The loop, with the cursor, which stays where it is when a round throws.
  unfoldable pub scan_loop :
      List Transaction
      → (cursor : Option String) → History
      → (Result (Unit {0}) × History) × Option String
  unfolding handle_transaction
  scan_loop [] cursor h = ((ok tt, h), cursor)
  scan_loop (tx ∷ txs) cursor h =
      let (r, h') = handle_transaction tx h in
      elim r [
        | ok a ↦ scan_loop txs (some tx.paging_token) h'
        | err e ↦ ((err e, h'), some tx.paging_token)
      ]

  module _ (poll_transfer_events : Action (Unit {0})) where
    -- The `try` block from the transactions on.
    unfoldable pub scan_transactions :
        List Transaction
        → (cursor : Option String) → History
        → (Result (Unit {0}) × History) × Option String
    unfolding scan_loop expire_old_payments
    scan_transactions txs cursor h =
        let ((r, h'), cursor') = scan_loop txs cursor h in
        elim r [
          | ok a ↦ ((expire_old_payments env chain >> poll_transfer_events) h', cursor')
          | err e ↦ ((err e, h'), cursor')
        ]

    -- The end of a run: the outcome is kept, and an error thrown on.
    abbrev pub end_run :
        MonitorState
        → (Result (Unit {0}) × History) × Option String
        → (Result (Unit {0}) × History) × MonitorState
    end_run s ((ok a, h), cursor) =
        ((ok tt, h), mark_run_success (env.now h) (record s { cursor = cursor }))
    end_run s ((err e, h), cursor) =
        ((err e, h), mark_run_failure e (env.now h) (record s { cursor = cursor }))

    -- The `catch` of the fetch: an alert, and the run counts as failed, but returns.
    abbrev pub fetch_failed :
        MonitorState → Error → History → (Result (Unit {0}) × History) × MonitorState
    unfolding perform
    fetch_failed s e h =
        let (r, h') =
          perform env (Call.raise_alert AlertType.stellar_monitor "stellar-monitor.fetch") h in
        elim r [
          | ok a ↦ ((ok tt, h'), mark_run_failure e (env.now h') s)
          | err x ↦ ((err x, h'), mark_run_failure x (env.now h') s)
        ]

    abbrev pub scan_address :
        MonitorState → Option String → History → (Result (Unit {0}) × History) × MonitorState
    unfolding perform scan_transactions fetch_failed
    scan_address s none h = ((ok tt, h), mark_run_success (env.now h) s)
    scan_address s (some address) h =
        let (r, h') = perform env (Call.read_transactions address s.cursor) h in
        elim r [
          | ok a ↦
              end_run s (scan_transactions (chain.transactions address s.cursor h') s.cursor h')
          | err e ↦ fetch_failed s e h'
        ]

    unfoldable pub scan_pending_payments :
        MonitorState → History → (Result (Unit {0}) × History) × MonitorState
    unfolding scan_address
    scan_pending_payments s = scan_address s (truthy (some env.deposit_address))
