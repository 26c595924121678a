-- ===== src/Monitor/Tests.antt =====
-- Runs of the monitor, and its theorems at concrete inputs.
use dabdub.Prelude.{◌≡◌, ◌⊎◌, refl, Option, none, some, String, [], ◌∷◌}
use dabdub.Platform.Entities.{Payment, PaymentStatus}
use dabdub.Platform.Actions.{Call, Error, Result, Action, History, throw, written, payment_status}
use dabdub.Platform.Samples.{calm, payment_of}
use dabdub.Monitor.Verification.{Transaction, Operation, Chain, Paid}
use dabdub.Monitor.Confirmation.{
  confirmed_by, confirmed_event, confirm_payment, expire_old_payments,
}
use dabdub.Monitor.Confirmation.Laws.{Mailed, SettledOrLeft, confirm_payment_settles}
use dabdub.Monitor.Scan.{
  RunStatus, MonitorState, handle_transaction, scan_loop, scan_pending_payments,
}
use dabdub.Monitor.Scan.Laws.{Justified, handle_transaction-Writes}
use dabdub.Monitor.Scan.Runs.{WentThrough, StoppedAt, scan_loop_cursor, scan_pending_payments_fails}

abbrev tea : Payment
tea = record (payment_of "p1" "m1" 50_000_000 0) {
  status = PaymentStatus.pending;
  amount_usdc = none;
}

-- One millionth of a dollar where fifty were asked for.
abbrev crumb : Operation
crumb = record {
  type = "payment";
  asset_type = "credit_alphanum4";
  asset_code = some "USDC";
  asset_issuer = some "GUSDC";
  amount = 10;
  from = some "GCUS";
}

abbrev chain : Chain
chain = record {
  usdc_issuer = "GUSDC";
  transactions = λ a c h. [];
  memo = λ hash h. some "MEMO";
  operations = λ hash h. crumb ∷ [];
  pending_payment = λ m h. some tea;
  expired_payments = λ t h. tea ∷ [];
}

abbrev tx : Transaction
tx = record { hash = "tx1"; paging_token = "7"; memo = some "MEMO" }

-- What was paid is not compared with what was asked for: the payment is settled in full.
underpaid :
    payment_status "p1" (handle_transaction calm chain tx []).1 ≡ some PaymentStatus.settling
unfolding handle_transaction payment_status
underpaid = refl

abbrev paid : Paid
paid = record { amount = 500_000_000; asset = "USDC"; from = some "GCUS" }

abbrev confirming : Result Payment × History
confirming = confirm_payment calm tea "tx1" paid []

abbrev confirmed : Payment
confirmed = confirmed_by "tx1" paid 1 tea

abbrev settling : Payment
settling = record confirmed {
  status = PaymentStatus.settling;
  fee_usd = some 750_000_000;
  settlement_id = some "row-1";
}

confirm_payment_settles_example :
    let asked = Call.confirm_on_chain "p1" "tx1" 500_000_000 "USDC" (some "GCUS") ∷ [] in
    (j : History) × Mailed calm confirmed (Call.save_payment confirmed ∷ asked) j
    × SettledOrLeft calm confirmed settling
        (confirmed_event calm "tx1" paid confirmed ∷ j)
        confirming.1
unfolding confirm_payment
confirm_payment_settles_example =
    confirm_payment_settles calm tea settling "tx1" paid [] confirming.1 refl

handle_transaction-Writes_example :
    (written (handle_transaction calm chain tx []).1 ≡ [])
    ⊎ Justified calm chain tx [] (handle_transaction calm chain tx []).1
unfolding written
handle_transaction-Writes_example = handle_transaction-Writes calm chain tx []

abbrev scanned : (Result (Unit {0}) × History) × Option String
scanned = scan_loop calm chain (tx ∷ []) none []

scan_loop_cursor_example :
    WentThrough calm chain (tx ∷ []) none [] scanned ⊎ StoppedAt calm chain (tx ∷ []) [] scanned
scan_loop_cursor_example = scan_loop_cursor calm chain (tx ∷ []) none []

abbrev not_a_function : Action (Unit {0})
not_a_function = throw (Error.failure "this.sorobanMonitor.pollTransferEvents is not a function")

abbrev at_start : MonitorState
at_start = record {
  cursor = none;
  last_run_at = none;
  last_run_status = RunStatus.idle;
  last_run_error = none;
}

scan_pending_payments_fails_example :
    (scan_pending_payments calm chain not_a_function at_start []).1.last_run_status
    ≡ RunStatus.run_error
scan_pending_payments_fails_example =
    scan_pending_payments_fails calm chain not_a_function at_start [] "GDEP" refl (λ h. (_, refl))

abbrev after_expiry : History
after_expiry = (expire_old_payments calm chain []).1
