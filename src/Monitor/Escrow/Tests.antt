-- ===== src/Monitor/Escrow/Tests.antt =====
-- Runs of the escrow monitor, and its theorems at concrete inputs.
use dabdub.Prelude.{◌≡◌, ◌⊎◌, refl, ◌+◌, ◌≤◌, none, some, String, [], ◌∷◌, arith, length}
use dabdub.Platform.Entities.{PaymentStatus}
use dabdub.Platform.Actions.{ok, History, written, payment_status}
use dabdub.Platform.Samples.{calm, payment_of}
use dabdub.Monitor.Escrow.{SorobanEvent, Tracked, EscrowState, Escrow, process_escrow_event}
use dabdub.Monitor.Escrow.Laws.{Effect, process_escrow_event-Effect}
use dabdub.Monitor.Escrow.Polling.{events_loop, poll_escrow_events, dedupe_limit}
use dabdub.Monitor.Escrow.Polling.Once.{IsBounded, poll_escrow_events-IsBounded}
use dabdub.Monitor.Escrow.Polling.Again.{events_loop_again}

abbrev tea : Tracked
tea = record {
  row = record (payment_of "p1" "m1" 50_000_000 0) {
    status = PaymentStatus.pending;
    amount_usdc = none;
  };
  escrow_payment_id = some "e1";
}

abbrev paid_in : SorobanEvent
paid_in = record {
  id = "ev1";
  topic = "ESCROW" ∷ "Deposit" ∷ [];
  value = some (record { payment_id = some "e1"; payment_id_camel = none });
}

-- One stroop has been deposited.
abbrev crumbs : Escrow
crumbs = record {
  contract_id = "C1";
  events = λ l h. paid_in ∷ paid_in ∷ [];
  latest_ledger = λ l h. 9;
  payments = λ h. tea ∷ [];
  balance = λ id h. some 1;
}

abbrev at_start : EscrowState
at_start = record { processed_event_ids = []; start_ledger = 0 }

-- A payment whose dollars are not known yet expects nothing: one stroop confirms it.
confirmed_for_a_crumb :
    payment_status "p1" (process_escrow_event calm crumbs paid_in (tea ∷ []) []).1
    ≡ some PaymentStatus.confirmed
unfolding process_escrow_event payment_status
confirmed_for_a_crumb = refl

process_escrow_event-Effect_example :
    let after = (process_escrow_event calm crumbs paid_in (tea ∷ []) []).1 in
    (written after ≡ written []) ⊎ Effect calm crumbs paid_in (tea ∷ []) [] after
process_escrow_event-Effect_example = process_escrow_event-Effect calm crumbs paid_in (tea ∷ []) []

nothing_seen : IsBounded []
unfolding dedupe_limit
nothing_seen = (tt, omega arith)

poll_escrow_events-IsBounded_example :
    IsBounded (poll_escrow_events calm crumbs at_start []).1.processed_event_ids
poll_escrow_events-IsBounded_example =
    poll_escrow_events-IsBounded calm crumbs at_start [] nothing_seen

abbrev after_one : History
after_one = (process_escrow_event calm crumbs paid_in (tea ∷ []) []).1

first_run :
    events_loop calm crumbs (paid_in ∷ paid_in ∷ []) (tea ∷ []) [] []
    ≡ ((ok tt, after_one), "ev1" ∷ [])
unfolding events_loop
first_run = refl

room_for_two : length {A = String} [] + length (paid_in ∷ paid_in ∷ []) ≤ dedupe_limit
unfolding dedupe_limit
room_for_two = omega arith

events_loop_again_example :
    events_loop calm crumbs (paid_in ∷ paid_in ∷ []) (tea ∷ []) ("ev1" ∷ []) after_one
    ≡ ((ok tt, after_one), "ev1" ∷ [])
events_loop_again_example =
    events_loop_again calm crumbs (paid_in ∷ paid_in ∷ []) (tea ∷ []) (tea ∷ []) [] ("ev1" ∷ []) []
      after_one after_one room_for_two first_run
