-- ===== src/Settlements/Batching/Approval.antt =====
-- Batches of small payments never reach the limit for approval.
use dabdub.Prelude.{
  ℕ, ◌+◌, ◌*◌, ◌<◌, ◌≡◌, refl, inl, inr, false, List, [], ◌∷◌, ◌++◌, arith, All, Bool-cases,
}
use dabdub.Platform.Entities.{Payment, SettlementStatus}
use dabdub.Platform.Actions.{Call, Env, History, for_each}
use dabdub.Platform.Loops.{Keeps, >>-Keeps, for_each-Keeps}
use dabdub.Settlements.Creation.{
  small_batch_threshold, new_settlement, settle_in_batch, create_batch_settlement,
}
use dabdub.Settlements.Creation.Laws.{IsSplit, new_settlement-IsSplit}
use dabdub.Settlements.Batching.{
  Groups, should_flush, flush_loop, flush_merchant_batch, sort_by_time, group_by_merchant,
  batch_small_confirmed_payments,
}
use dabdub.Settlements.Batching.Groups.{group_by_merchant-All}
use dabdub.Settlements.Batching.Sorting.{sort_by_time-All}
use dabdub.Settlements.Batching.Flushing.{IsBatch, IsPending, IsSmall, total_usd, grow, unflushed}

-- A settlement that is saved is split as it should be and may run at once; nobody is alerted.
abbrev pub NeedsNoApproval : Call → Type 0
NeedsNoApproval (Call.save_settlement s) =
    IsSplit s × (s.requires_approval ≡ false) × (s.status ≡ SettlementStatus.processing)
NeedsNoApproval (Call.raise_alert _ _) = ⊥
NeedsNoApproval _ = Unit

abbrev pub Smooth : History → Type 0
Smooth h = All NeedsNoApproval h

new_settlement_smooth :
    (m id : _) (a : ℕ)
    → a < 2 * small_batch_threshold
    → NeedsNoApproval (Call.save_settlement (new_settlement m a id))
new_settlement_smooth m id a h = (new_settlement-IsSplit m a id, ground arith, ground arith)

module _ (env : Env) where
  create_batch_settlement-Keeps :
      (ps : List Payment) → IsBatch ps → Keeps Smooth (create_batch_settlement env ps)
  unfolding create_batch_settlement
  create_batch_settlement-Keeps [] b h s = s
  create_batch_settlement-Keeps (p ∷ ps) b h s =
      let m = new_settlement p.merchant_id (total_usd (p ∷ ps)) (env.fresh_id h) in
      let fine =
        new_settlement_smooth p.merchant_id (env.fresh_id h) (total_usd (p ∷ ps)) b.cheap in
      let loop =
        for_each-Keeps Smooth (p ∷ ps) (settle_in_batch env m.id) (λ q k t. ground arith)
          (Call.save_settlement m ∷ h) (fine, s) in
      ground (arith, loop)

  flush_loop-Keeps :
      (batch : List Payment) (total : ℕ) (ps : List Payment)
      → total ≡ total_usd batch
      → IsPending batch
      → All IsSmall ps
      → Keeps Smooth (flush_loop env (create_batch_settlement env) batch total ps)
  unfolding flush_loop
  flush_loop-Keeps batch total [] t pending small h s = s
  flush_loop-Keeps batch total (p ∷ ps) t pending (sp, small) h s =
      let batch' = batch ++ p ∷ [] in
      let total' = total + p.amount_usd in
      let (full, sum) = grow batch p pending sp in
      let same : total' ≡ total_usd batch' = omega arith in
      elim (Bool-cases (should_flush (env.now h) batch' total')) [
        | inl now ↦ rw now (
            >>-Keeps Smooth (create_batch_settlement env batch')
              (λ _. flush_loop env (create_batch_settlement env) [] 0 ps)
              (create_batch_settlement-Keeps batch' full)
              (λ _. flush_loop-Keeps [] 0 ps refl (omega arith) small) h s)
        | inr later ↦ rw later (
            flush_loop-Keeps batch' total' ps same
              (unflushed (env.now h) batch' (rw (← same) later)) small h s)
      ]

  flush_merchant_batch-Keeps :
      (ps : List Payment) → All IsSmall ps → Keeps Smooth (flush_merchant_batch env ps)
  unfolding flush_merchant_batch
  flush_merchant_batch-Keeps ps small =
      flush_loop-Keeps [] 0 (sort_by_time ps) refl (omega arith) (sort_by_time-All IsSmall ps small)

  for_groups-Keeps :
      (gs : Groups)
      → All (λ g. All IsSmall g.1) gs
      → Keeps Smooth (for_each gs (λ g. flush_merchant_batch env g.1))
  for_groups-Keeps [] small h s = s
  for_groups-Keeps (g ∷ gs) (small, rest) h s =
      >>-Keeps Smooth (flush_merchant_batch env g.1)
        (λ _. for_each gs (λ k. flush_merchant_batch env k.1))
        (flush_merchant_batch-Keeps g.1 small) (λ _. for_groups-Keeps gs rest) h s

  -- Given that every confirmed payment that the query finds is under ten dollars, a round of
  -- `batchSmallConfirmedPayments`, also one that throws half way, saves only settlements whose fee and
  -- net make up the total, which need no approval and are in processing; it alerts nobody. This is
  -- stated as: if all calls made before the round are of this kind, so are all calls made after it.
  pub batch_small_confirmed_payments-Smooth :
      (confirmed : List Payment)
      → All IsSmall confirmed
      → (h : History) → Smooth h
      → Smooth (batch_small_confirmed_payments env confirmed h).1
  unfolding batch_small_confirmed_payments
  batch_small_confirmed_payments-Smooth confirmed small =
      for_groups-Keeps (group_by_merchant [] confirmed)
        (group_by_merchant-All IsSmall [] confirmed tt small)
