-- ===== src/Settlements/Batching/Flushing.antt =====
-- How `flushMerchantBatch` cuts a merchant's payments into batches.
use mathlib.Core.List.{Perm, flatten, append_assoc, append-nil}
use dabdub.Prelude.{
  ℕ, ◌+◌, ◌*◌, ◌≤◌, ◌<◌, ◌≡◌, refl, sym, ◌∙◌, ap, inl, inr, false, List, [], ◌∷◌, ◌++◌, arith,
  length, sum_by, All, length-append, sum_by-append, Bool-cases,
}
use dabdub.Platform.Entities.{Payment}
use dabdub.Platform.Actions.{Env, Action, ok, History, for_each}
use dabdub.Platform.Loops.{Result-cases}
use dabdub.Settlements.Creation.{small_batch_threshold, create_batch_settlement}
use dabdub.Settlements.Batching.Sorting.{
  IsSorted, sort_by_time-perm, sort_by_time-IsSorted, sort_by_time-All,
}
use dabdub.Settlements.Batching.{
  max_batch_payment_count, should_flush, flush_loop, sort_by_time, flush_merchant_batch,
}

abbrev pub total_usd : List Payment → ℕ
total_usd ps = sum_by (λ p. p.amount_usd) ps

abbrev pub IsSmall : Payment → Type 0
IsSmall p = p.amount_usd < small_batch_threshold

-- What is flushed: some payments, at most fifty, for less than twenty dollars.
pub record IsBatch (ps : List Payment) : Type 0 where
  pub some_payment : 0 < length ps
  pub few : length ps ≤ max_batch_payment_count
  pub cheap : total_usd ps < 2 * small_batch_threshold

-- What waits for the next round: fewer than fifty payments, for less than ten dollars.
pub record IsPending (ps : List Payment) : Type 0 where
  pub few : length ps < max_batch_payment_count
  pub cheap : total_usd ps < small_batch_threshold

pub grow :
    (batch : List Payment) (p : Payment)
    → IsPending batch
    → IsSmall p
    → IsBatch (batch ++ p ∷ []) × (total_usd (batch ++ p ∷ []) ≡ total_usd batch + p.amount_usd)
grow batch p h s = (
  record {
    some_payment = omega (arith, length-append batch (p ∷ []));
    few = omega (arith, length-append batch (p ∷ []));
    cheap = omega (arith, sum_by-append (λ q. q.amount_usd) batch (p ∷ []));
  },
  omega (arith, sum_by-append (λ q. q.amount_usd) batch (p ∷ [])),
)

pub unflushed :
    (t : ℕ) (batch : List Payment)
    → should_flush t batch (total_usd batch) ≡ false
    → IsPending batch
unflushed t batch h = record { few = ground arith; cheap = ground arith }

module _ (env : Env) (create : List Payment → Action (Unit {0})) where
  abbrev pub Cuts : List Payment → History → History → Type 0
  Cuts ps h h' =
      (batches : List (List Payment)) × (rest : List Payment) × (flatten batches ++ rest ≡ ps)
      × All IsBatch batches
      × IsPending rest
      × (for_each batches create h ≡ (ok tt, h'))

  flush_loop-Cuts :
      (batch : List Payment) (total : ℕ) (ps : List Payment) (h h' : History)
      → total ≡ total_usd batch
      → IsPending batch
      → All IsSmall ps
      → flush_loop env create batch total ps h ≡ (ok tt, h')
      → Cuts (batch ++ ps) h h'
  unfolding flush_loop flatten
  flush_loop-Cuts batch total [] h h' t pending small e =
      ([], batch, sym (append-nil batch), tt, pending, ground arith)
  flush_loop-Cuts batch total (p ∷ ps) h h' t pending (s, small) e =
      let batch' = batch ++ p ∷ [] in
      let total' = total + p.amount_usd in
      let (full, sum) = grow batch p pending s in
      let same : total' ≡ total_usd batch' = omega arith in
      elim (Bool-cases (should_flush (env.now h) batch' total')) [
        | inl now ↦ elim (Result-cases (create batch' h)) [
          | inl (k, made) ↦
              let (batches, rest, split, good, wait, run) =
                flush_loop-Cuts [] 0 ps k h' refl (omega arith) small (ground arith) in
              (
                batch' ∷ batches,
                rest,
                append_assoc batch' (flatten batches) rest
                    ∙ ap (λ l. batch' ++ l) split
                    ∙ append_assoc batch (p ∷ []) ps,
                (full, good),
                wait,
                ground arith,
              )
          | inr (x, k, thrown) ↦ absurd (ground arith)
        ]
        | inr later ↦
            let (batches, rest, split, good, wait, run) =
              flush_loop-Cuts batch' total' ps h h' same
                (unflushed (env.now h) batch' (rw (← same) later)) small (ground arith) in
            (batches, rest, split ∙ append_assoc batch (p ∷ []) ps, good, wait, run)
      ]

-- If `flushMerchantBatch` returns, what it did to a merchant's payments, each under ten dollars, is
-- this: they were put in order of time, which neither loses nor repeats one; this order was cut
-- into batches and a rest; every batch has between one and fifty payments and is for less than
-- twenty dollars; `createBatchSettlement` was called for the batches in turn; and the rest, which
-- stays for the next round, has fewer than fifty payments for less than ten dollars.
pub flush_merchant_batch-Cuts :
    (env : Env) (payments : List Payment) (h h' : History)
    → All IsSmall payments
    → flush_merchant_batch env payments h ≡ (ok tt, h')
    → Perm (sort_by_time payments) payments
      × IsSorted (sort_by_time payments)
      × Cuts env (create_batch_settlement env) (sort_by_time payments) h h'
unfolding flush_merchant_batch
flush_merchant_batch-Cuts env payments h h' small e = (
  sort_by_time-perm payments,
  sort_by_time-IsSorted payments,
  flush_loop-Cuts env (create_batch_settlement env) [] 0 (sort_by_time payments) h h' refl
      (omega arith) (sort_by_time-All IsSmall payments small) e,
)
