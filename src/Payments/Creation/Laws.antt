-- ===== src/Payments/Creation/Laws.antt =====
-- What new payments guarantee: the rows of a batch, that it is written whole or not at all, and how
-- far the price in lumens is from the price in dollars.
use dabdub.Prelude.{
  ℕ, ◌+◌, ◌*◌, ◌≤◌, ◌<◌, ◌≡◌, ◌⊎◌, inl, inr, false, none, some, String, List, [], ◌∷◌, ◌++◌, refl,
  ◌∙◌, ap, All, arith, map, length, ℤ, pos, negsuc, round_div_close, Bool-cases, Option-cases,
}
use dabdub.Platform.Entities.{Payment, PaymentStatus}
use dabdub.Platform.Actions.{Call, Error, Env, ok, err, History, written}
use dabdub.Payments.Creation.{
  BatchPaymentItemDto, to_xlm, complaint, is_empty_memo, is_not_positive, check_item, check_items,
  batch_payment, stellar_uri, build_record, build_records, create_batch, to_amount, minutes,
}

-- An item asks for a positive amount, with a memo that is more than white space.
abbrev pub IsSound : BatchPaymentItemDto → Type 0
IsSound item = (0 < to_amount item.amount_usd) × (is_empty_memo item.memo ≡ false)

-- The payment that answers an item.
pub record Answers (env : Env) (merchant : String) (item : BatchPaymentItemDto) (p : Payment)
    : Type 0 where
  pub owner : p.merchant_id ≡ merchant
  pub amount : item.amount_usd ≡ pos p.amount_usd
  pub memo : p.description ≡ item.memo
  pub email : p.customer_email ≡ item.customer_email
  pub address : p.stellar_deposit_address ≡ env.deposit_address
  pub waits : p.status ≡ PaymentStatus.pending
  pub expiry : p.expires_at ≡ p.created_at + minutes item.expiry_minutes * 60_000

-- Payment by payment, in the order of the items, each of which is sound.
abbrev pub AnswerAll : Env → String → List BatchPaymentItemDto → List Payment → Type 0
AnswerAll env m [] [] = Unit
AnswerAll env m (item ∷ items) (p ∷ ps) =
    IsSound item × Answers env m item p × AnswerAll env m items ps
AnswerAll env m _ _ = ⊥

AnswerAll-length :
    (env : Env) (m : String) (items : List BatchPaymentItemDto) (ps : List Payment)
    → AnswerAll env m items ps
    → length ps ≡ length items
AnswerAll-length env m [] [] a = refl
AnswerAll-length env m [] (p ∷ ps) a = elim a [ ]
AnswerAll-length env m (x ∷ xs) [] a = elim a [ ]
AnswerAll-length env m (x ∷ xs) (p ∷ ps) a = omega (arith, AnswerAll-length env m xs ps a.2)

check_item-cases :
    (i : ℕ) (item : BatchPaymentItemDto)
    → (IsSound item × (check_item i item ≡ none))
      ⊎ ((text : String) × (check_item i item ≡ some (Error.bad_request text)))
check_item-cases i item = elim (Bool-cases (is_not_positive item.amount_usd)) [
  | inl bad ↦ inr (complaint i "amountUsd must be greater than 0", ground arith)
  | inr fine ↦ elim (Bool-cases (is_empty_memo item.memo)) [
    | inl bad ↦ inr (complaint i "memo must not be empty", ground arith)
    | inr full ↦ inl ((positive item.amount_usd fine, full), ground arith)
  ]
]
  where
    positive : (a : ℤ) → is_not_positive a ≡ false → 0 < to_amount a
    positive a e = ground arith

to_amount-pos : (a : ℤ) → 0 < to_amount a → a ≡ pos (to_amount a)
to_amount-pos (pos n) some_left = refl
to_amount-pos (negsuc n) none_left = absurd (omega (arith, none_left))

batch_payment-Answers :
    (env : Env) (m : String) (rate t i : ℕ) (item : BatchPaymentItemDto) (memo id random : String)
    (t' : ℕ)
    → IsSound item
    → Answers env m item (batch_payment env m rate t i item memo id random t')
batch_payment-Answers env m rate t i item memo id random t' sound = record {
  owner = refl;
  amount = to_amount-pos item.amount_usd sound.0;
  memo = refl;
  email = refl;
  address = refl;
  waits = refl;
  expiry = refl;
}

module _ (env : Env) (m : String) (rate t : ℕ) where
  -- A round of the loop makes the item's payment and writes nothing.
  build_record-Answers :
      (i : ℕ) (item : BatchPaymentItemDto) (h : History)
      → IsSound item
      → ((p : Payment) × (k : History) × (build_record env m rate t i item h ≡ (ok p, k))
          × Answers env m item p
          × (written k ≡ written h))
        ⊎ ((e : Error) × (build_record env m rate t i item h ≡ (err e, h)))
  unfolding build_record written
  build_record-Answers i item h sound =
      let memo = env.random_text 8 h in
      let qr =
        Call.render_qr
          (stellar_uri env.deposit_address (to_xlm rate (to_amount item.amount_usd)) memo) in
      let k = qr ∷ h in
      elim (Option-cases (env.throws qr h)) [
        | inl fine ↦ inl (
          batch_payment env m rate t i item memo (env.fresh_id k) (env.random_text 4 k) (env.now k),
          k,
          ground arith,
          batch_payment-Answers env m rate t i item _ _ _ _ sound,
          refl,
        )
        | inr (x, bad) ↦ inr (x, ground arith)
      ]

  build_records-AnswerAll :
      (i : ℕ) (items : List BatchPaymentItemDto) (h : History)
      → check_items i items ≡ none
      → ((ps : List Payment) × (k : History) × (build_records env m rate t i items h ≡ (ok ps, k))
          × AnswerAll env m items ps
          × (written k ≡ written h))
        ⊎ ((e : Error) × (k : History) × (build_records env m rate t i items h ≡ (err e, k))
            × (written k ≡ written h))
  unfolding build_records
  build_records-AnswerAll i [] h e = inl ([], h, refl, tt, refl)
  build_records-AnswerAll i (item ∷ items) h e = elim (check_item-cases i item) [
    | inr (x, bad) ↦ absurd (ground arith)
    | inl (sound, fine) ↦ elim (build_record-Answers i item h sound) [
      | inr (x, bad) ↦ inr (x, h, ground arith, refl)
      | inl (p, k, made, good, same) ↦
          elim (build_records-AnswerAll (i + 1) items k (ground arith)) [
            | inl (ps, k', rest, all, same') ↦
                inl (p ∷ ps, k', ground arith, (sound, good, all), same' ∙ same)
            | inr (x, k', rest, same') ↦ inr (x, k', ground arith, same' ∙ same)
          ]
    ]
  ]

module _ (env : Env) (m : String) where
  -- Either `createBatch` returns, all items were sound, one payment has been written for each, in
  -- their order and with their data, still pending, and the answer lists their ids and number. Or it
  -- throws, and no payment at all has been written.
  pub create_batch_all_or_nothing :
      (items : List BatchPaymentItemDto) (h : History)
      → ((ps : List Payment) × (h' : History) × (create_batch env m items h
            ≡ (ok (record { payment_ids = map (λ p. p.id) ps; count = length items }), h'))
          × AnswerAll env m items ps
          × (written h' ≡ ps ++ written h))
        ⊎ ((e : Error) × (h' : History) × (create_batch env m items h ≡ (err e, h'))
            × (written h' ≡ written h))
  unfolding create_batch written
  create_batch_all_or_nothing items h = elim (Option-cases (check_items 0 items)) [
    | inr (x, bad) ↦ inr (x, h, ground arith, refl)
    | inl fine ↦ elim (Option-cases (env.throws Call.read_rate h)) [
      | inr (x, bad) ↦ inr (x, h, ground arith, refl)
      | inl rated ↦
          let k = Call.read_rate ∷ h in
          elim (build_records-AnswerAll env m (env.xlm_rate k) (env.now k) 0 items k fine) [
            | inr (x, k', bad, same) ↦ inr (x, k', ground arith, same)
            | inl (ps, k', made, all, same) ↦
                let size = AnswerAll-length env m items ps all in
                elim (Option-cases (env.throws (Call.save_payments ps) k')) [
                  | inr (x, bad) ↦ inr (x, k', ground arith, same)
                  | inl saved ↦
                      inl
                        (ps, Call.save_payments ps ∷ k', ground arith, all, ap (λ w. ps ++ w) same)
                ]
          ]
    ]
  ]

  check_items-IsSound :
      (i : ℕ) (items : List BatchPaymentItemDto)
      → ¬ All IsSound items
      → (text : String) × (check_items i items ≡ some (Error.bad_request text))
  check_items-IsSound i [] bad = absurd (bad tt)
  check_items-IsSound i (item ∷ items) bad = elim (check_item-cases i item) [
    | inr (text, e) ↦ (text, ground arith)
    | inl (sound, fine) ↦
        let (text, e) = check_items-IsSound (i + 1) items (λ rest. bad (sound, rest)) in
        (text, ground arith)
  ]

  -- A batch with an item that is not sound is refused before anything is called.
  create_batch_refuses :
      (items : List BatchPaymentItemDto) (h : History)
      → ¬ All IsSound items
      → (text : String) × (create_batch env m items h ≡ (err (Error.bad_request text), h))
  unfolding create_batch
  create_batch_refuses items h bad =
      let (text, e) = check_items-IsSound 0 items bad in (text, ground arith)

-- At a positive rate, the price in lumens, in ten-millionths, is as near as can be to the price in
-- dollars: valued at the rate it differs by at most half the rate.
to_xlm_close :
    (rate amount : ℕ)
    → 0 < rate
    → let lumens = to_xlm rate amount in
      (2 * (lumens * rate) ≤ 2 * (amount * 10_000_000) + rate)
      × (2 * (amount * 10_000_000) ≤ 2 * (lumens * rate) + rate)
to_xlm_close rate amount some_rate = round_div_close (amount * 10_000_000) rate some_rate
