-- ===== src/Payments/Tests.antt =====
-- Runs of the payment service, and its theorems at concrete inputs.
use dabdub.Prelude.{
  ℕ, ◌≡◌, ◌⊎◌, refl, true, Option, none, some, String, List, [], ◌∷◌, ◌++◌, map, pos, decimal,
  fixed_7, is_blank, last_segment,
}
use dabdub.Platform.Entities.{Payment, PaymentStatus}
use dabdub.Platform.Actions.{Call, Env, Error, Result, ok, err, History, written, sent}
use dabdub.Platform.Samples.{calm, payment_of}
use dabdub.Payments.Creation.{BatchPaymentItemDto, create_batch}
use dabdub.Payments.Creation.Laws.{AnswerAll, create_batch_all_or_nothing}
use dabdub.Payments.Refund.{RefundPaymentDto, confirm_payment, refund}
use dabdub.Payments.Refund.Laws.{Books, Refunded, refund-Refunded}
use dabdub.Payments.Refund.Confirming.{Confirms, confirm_payment_outcome}

printed : (decimal 10_203 ≡ "10203") × (fixed_7 12_345_678 ≡ "1.2345678") × (decimal 0 ≡ "0")
printed = (refl, refl, refl)

cut : (last_segment "PAY-17-AB" ≡ "AB") × (last_segment "PAY" ≡ "PAY") × (is_blank " " ≡ true)
cut = (refl, refl, refl)

abbrev tea : BatchPaymentItemDto
tea = record {
  amount_usd = pos 5_000_000;
  memo = some "tea";
  customer_email = none;
  expiry_minutes = none;
}

abbrev nameless : BatchPaymentItemDto
nameless = record {
  amount_usd = pos 5_000_000;
  memo = some " ";
  customer_email = none;
  expiry_minutes = some 5;
}

create_batch_all_or_nothing_example :
    ((ps : List Payment) × (h' : History) × (create_batch calm "m1" (tea ∷ []) []
        ≡ (ok (record { payment_ids = map (λ p. p.id) ps; count = 1 }), h'))
      × AnswerAll calm "m1" (tea ∷ []) ps
      × (written h' ≡ ps ++ written []))
    ⊎ ((e : Error) × (h' : History) × (create_batch calm "m1" (tea ∷ []) [] ≡ (err e, h'))
        × (written h' ≡ written []))
create_batch_all_or_nothing_example = create_batch_all_or_nothing calm "m1" (tea ∷ []) []

abbrev paid : Payment
paid = record (payment_of "p1" "m1" 20_000_000 3) { status = PaymentStatus.settled }

abbrev half : RefundPaymentDto
half = record { amount_usd = some 10_000_000; reason = "returned" }

-- The database is down for payment rows; all else works.
abbrev is_payment_save : Call → Option Error
is_payment_save (Call.save_payment _) = some (Error.failure "connection lost")
is_payment_save _ = none

abbrev saveless : Env
saveless = record calm { throws = λ c h. is_payment_save c }

abbrev refunding : Result Payment × History
refunding = refund saveless (some paid) "m1" half []

-- The customer has the money, and the caller is told that the refund has failed.
sent_but_failed :
    (sent refunding.1 ≡ ("GCUS", 100_000_000, "USDC") ∷ [])
    × (written refunding.1 ≡ [])
    × (refunding.0 ≡ err (Error.bad_request "Stellar refund failed: connection lost"))
unfolding refund sent written
sent_but_failed = (refl, refl, refl)

refund-Refunded_example :
    (Books (sent []) (written []) refunding.1 × ((e : Error) × (refunding.0 ≡ err e)))
    ⊎ ((p : Payment) × (wallet hash : String) × (time : ℕ) × (some paid ≡ some p)
        × Refunded p half wallet hash time refunding.0 [] refunding.1)
unfolding refund sent written
refund-Refunded_example =
    refund-Refunded saveless (some paid) "m1" half [] refunding.1 refunding.0 refl

abbrev confirming : Result Payment × History
confirming = confirm_payment calm (some paid) "p1" "GNEW" []

confirm_payment_outcome_example : Confirms calm paid "p1" "GNEW" [] "p2" confirming.0 confirming.1
unfolding confirm_payment
confirm_payment_outcome_example =
    confirm_payment_outcome calm paid "p1" "GNEW" [] "p2" confirming.1 confirming.0 refl
