-- ===== src/Settlements/Tests.antt =====
-- Runs of the settlement service, and its theorems at concrete inputs.
use mathlib.Core.List.{Perm}
use dabdub.Prelude.{◌+◌, ◌≤◌, ◌<◌, ◌≡◌, ◌⊎◌, refl, true, false, none, some, [], ◌∷◌, arith}
use dabdub.Platform.Entities.{Payment, PaymentStatus, Settlement, SettlementStatus}
use dabdub.Platform.Actions.{
  Call, Result, Error, ok, History, perform, payment_status, settlement_status, transfers,
}
use dabdub.Platform.Samples.{calm, cacheless, payment_of, settlement_of}
use dabdub.Settlements.Creation.{
  small_batch_threshold, to_fine, link_payment, initiate_settlement, create_batch_settlement,
}
use dabdub.Settlements.Creation.Laws.{
  IsSplit, hand_over, settling_event, initiate_settlement_outcome,
}
use dabdub.Settlements.Batching.{
  sort_by_time, flush_loop, flush_merchant_batch, group_by_merchant, batch_small_confirmed_payments,
}
use dabdub.Settlements.Batching.Sorting.{IsSorted}
use dabdub.Settlements.Batching.Flushing.{Cuts, flush_merchant_batch-Cuts}
use dabdub.Settlements.Batching.Approval.{Smooth, batch_small_confirmed_payments-Smooth}
use dabdub.Settlements.Transfer.{
  execute_fiat_transfer, handle_partner_callback, complete, after_transfer, on_transfer_error, fail,
  settle_payment, announce_settled, fail_payment, announce_failed,
  invalidate_analytics_for_merchant, failed_row,
}
use dabdub.Settlements.Transfer.Rows.{Stand}
use dabdub.Settlements.Transfer.Outcome.{
  StandTogether, execute_fiat_transfer_all_or_nothing, handle_partner_callback-Stand,
}
use dabdub.Settlements.Transfer.Payout.{payout, execute_fiat_transfer_pays_once}
use dabdub.Settlements.Admin.{Answer, retried_row, retry_settlement, approve_settlement}
use dabdub.Settlements.Admin.Loopholes.{retry_pays_again}

-- What the runs below compute through.
runs : Unit {0}
unfolding perform initiate_settlement create_batch_settlement sort_by_time flush_loop
    flush_merchant_batch group_by_merchant batch_small_confirmed_payments execute_fiat_transfer
    handle_partner_callback complete after_transfer on_transfer_error fail settle_payment
    announce_settled fail_payment announce_failed invalidate_analytics_for_merchant retry_settlement
    approve_settlement payment_status settlement_status transfers
runs = tt

-- Twelve dollars, and two small payments of one merchant with one of another between them.
abbrev twelve : Payment
twelve = payment_of "p0" "m1" 12_000_000 0

abbrev six : Payment
six = payment_of "p1" "m1" 6_000_000 20

abbrev five : Payment
five = payment_of "p2" "m1" 5_000_001 10

abbrev other : Payment
other = payment_of "p3" "m2" 1_000_000 5

-- The row and history after `initiateSettlement`.
abbrev after_initiate : Result Payment × History
after_initiate = initiate_settlement calm twelve []

initiate_enqueues :
    after_initiate.1
    ≡ Call.enqueue_settlement "row-1"
      ∷ settling_event twelve (settlement_of "row-1" SettlementStatus.processing false)
      ∷ Call.save_payment (link_payment 180_000_000 "row-1" twelve)
      ∷ Call.save_settlement (record (settlement_of "row-1" SettlementStatus.processing false) {
        total_amount_usd = 12_000_000_000;
        fee_amount_usd = 180_000_000;
        net_amount_usd = 11_820_000_000;
      })
      ∷ []
unfolding runs
initiate_enqueues = refl

initiate_settlement_outcome_example :
    let p' = link_payment 180_000_000 "row-1" twelve in
    let h' = after_initiate.1 in
    ((12_000_000 < small_batch_threshold) × (p' ≡ twelve) × (h' ≡ []))
    ⊎ ((s : Settlement) × (small_batch_threshold ≤ 12_000_000)
        × IsSplit s
        × (s.total_amount_usd ≡ to_fine 12_000_000)
        × (p' ≡ link_payment s.fee_amount_usd s.id twelve)
        × (h'
            ≡ hand_over s
              ∷ settling_event twelve s
              ∷ Call.save_payment p'
              ∷ Call.save_settlement s
              ∷ []))
unfolding runs
initiate_settlement_outcome_example =
    initiate_settlement_outcome calm twelve (link_payment 180_000_000 "row-1" twelve) []
      after_initiate.1 refl

abbrev after_batch : History
after_batch = (create_batch_settlement calm (six ∷ five ∷ []) []).1

flush_merchant_batch-Cuts_example :
    Perm (sort_by_time (six ∷ five ∷ [])) (six ∷ five ∷ [])
    × IsSorted (sort_by_time (six ∷ five ∷ []))
    × Cuts calm
        (create_batch_settlement calm)
        (sort_by_time (six ∷ five ∷ []))
        []
        (flush_merchant_batch calm (six ∷ five ∷ []) []).1
unfolding runs
flush_merchant_batch-Cuts_example =
    flush_merchant_batch-Cuts calm (six ∷ five ∷ []) []
      (flush_merchant_batch calm (six ∷ five ∷ []) []).1 (omega arith) refl

two_groups :
    group_by_merchant [] (six ∷ other ∷ five ∷ [])
    ≡ ("m1", six ∷ five ∷ []) ∷ ("m2", other ∷ []) ∷ []
unfolding runs
two_groups = refl

batch_small_confirmed_payments-Smooth_example :
    Smooth (batch_small_confirmed_payments calm (six ∷ other ∷ five ∷ []) []).1
batch_small_confirmed_payments-Smooth_example =
    batch_small_confirmed_payments-Smooth calm (six ∷ other ∷ five ∷ []) (omega arith) [] tt

abbrev processing : Settlement
processing = settlement_of "s1" SettlementStatus.processing false

-- The partner pays, and then the cache fails: the settlement ends as failed.
abbrev after_execute : History
after_execute = (execute_fiat_transfer cacheless processing (six ∷ five ∷ []) []).1

paid_but_failed :
    (settlement_status "s1" after_execute ≡ some SettlementStatus.failed)
    × (transfers "s1" after_execute ≡ 1)
unfolding runs
paid_but_failed = (refl, refl)

execute_fiat_transfer_all_or_nothing_example :
    StandTogether cacheless processing (six ∷ five ∷ []) after_execute
unfolding runs
execute_fiat_transfer_all_or_nothing_example =
    execute_fiat_transfer_all_or_nothing cacheless processing six (five ∷ []) [] after_execute refl

execute_fiat_transfer_pays_once_example :
    ((cacheless.throws (payout cacheless processing) [] ≡ none)
      × (transfers "s1" after_execute ≡ transfers "s1" [] + 1))
    ⊎ ((m : Error) × (cacheless.throws (payout cacheless processing) [] ≡ some m)
        × (transfers "s1" after_execute ≡ transfers "s1" []))
unfolding runs
execute_fiat_transfer_pays_once_example =
    execute_fiat_transfer_pays_once cacheless processing six (five ∷ []) [] after_execute (ok tt)
      refl

abbrev waiting : Settlement
waiting = settlement_of "s2" SettlementStatus.pending_approval true

abbrev after_callback : History
after_callback = (handle_partner_callback calm (some (waiting, six ∷ [])) false (some "late") []).1

handle_partner_callback-Stand_example :
    (false ≡ true
      → Stand SettlementStatus.completed PaymentStatus.settled "s2" (six ∷ []) after_callback)
    × (false ≡ false
        → Stand SettlementStatus.failed PaymentStatus.failed "s2" (six ∷ []) after_callback)
unfolding runs
handle_partner_callback-Stand_example =
    handle_partner_callback-Stand calm waiting (six ∷ []) false (some "late") [] after_callback refl

-- The row that the execution above leaves.
abbrev failed_in_end : Settlement
failed_in_end = failed_row "redis is down" processing

abbrev after_retry : History
after_retry = (retry_settlement cacheless (some (failed_in_end, six ∷ five ∷ [])) after_execute).1

abbrev retried_answer : Answer
retried_answer = record { success = true; message = "Settlement retry initiated" }

abbrev after_approve : History
after_approve = (approve_settlement calm (some (waiting, six ∷ [])) []).1

abbrev approved_answer : Answer
approved_answer = record {
  success = true;
  message = "Settlement approved and processing initiated";
}

abbrev after_second : Result (Unit {0}) × History
after_second =
    execute_fiat_transfer cacheless (retried_row failed_in_end) (six ∷ five ∷ []) after_retry

retry_pays_again_example : transfers "s1" after_second.1 ≡ transfers "s1" [] + 2
unfolding runs
retry_pays_again_example =
    retry_pays_again cacheless processing failed_in_end six (five ∷ []) {a = retried_answer}
      {r₁ = ok tt} {r₂ = ok tt} [] after_execute after_retry after_second.1 (λ k. refl) (λ k. refl)
      refl refl refl refl refl
