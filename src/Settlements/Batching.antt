-- ===== src/Settlements/Batching.antt =====
-- The batches of small payments: `batchSmallConfirmedPayments` and `flushMerchantBatch` of
-- backend/src/settlements/settlements.service.ts.
pub mod Sorting
pub mod Groups
pub mod Flushing
pub mod Approval
use dabdub.Prelude.{
  ℕ, ◌+◌, ◌-◌, ◌*◌, Bool, true, false, ◌||◌, Option, none, some, String, List, [], ◌∷◌, ◌++◌, ltb,
  leb, if◌then◌else◌, str_eq, length,
}
use dabdub.Platform.Entities.{Payment}
use dabdub.Platform.Actions.{Env, Action, pure, ◌>>=◌, ◌>>◌, when, for_each, now}
use dabdub.Settlements.Creation.{small_batch_threshold, create_batch_settlement}

-- MAX_BATCH_PAYMENT_COUNT
abbrev pub max_batch_payment_count : ℕ
max_batch_payment_count = 50

-- BATCH_WINDOW_MINUTES * 60 * 1000
abbrev pub batch_window : ℕ
batch_window = 15 * 60 * 1000

-- `new Date(p.confirmedAt ?? p.createdAt).getTime()`
abbrev pub time_of : Payment → ℕ
time_of p = elim p.confirmed_at [ some t ↦ t | none ↦ p.created_at ]

-- The stable sort of `[...payments].sort(...)`: an item goes in front of the later ones.
unfoldable pub insert_by_time : Payment → List Payment → List Payment
insert_by_time p [] = p ∷ []
insert_by_time p (q ∷ qs) =
    let rest = insert_by_time p qs in if leb (time_of p) (time_of q) then p ∷ q ∷ qs else q ∷ rest

unfoldable pub sort_by_time : List Payment → List Payment
unfolding insert_by_time
sort_by_time [] = []
sort_by_time (p ∷ ps) = insert_by_time p (sort_by_time ps)

-- `Date.now() - oldestAt >= BATCH_WINDOW_MINUTES * 60 * 1000`, with the difference (which may be
-- negative) moved to the other side.
abbrev pub is_old_enough : ℕ → List Payment → Bool
is_old_enough t [] = false
is_old_enough t (oldest ∷ _) = leb (time_of oldest + batch_window) t

abbrev pub should_flush : ℕ → List Payment → ℕ → Bool
should_flush t batch total =
    leb small_batch_threshold total
    || leb max_batch_payment_count (length batch)
    || is_old_enough t batch

module _ (env : Env) where
  -- The loop of `flushMerchantBatch`; `create` is `createBatchSettlement`.
  unfoldable pub flush_loop :
      (create : List Payment → Action (Unit {0}))
      → List Payment
      → ℕ
      → List Payment
      → Action (Unit {0})
  flush_loop create batch total [] = pure tt
  flush_loop create batch total (p ∷ ps) = do
    let batch' = batch ++ p ∷ []
    let total' = total + p.amount_usd
    t ← now env
    let flush = should_flush t batch' total'
    when flush (create batch')
    flush_loop create (if flush then [] else batch') (if flush then 0 else total') ps

  unfoldable pub flush_merchant_batch : List Payment → Action (Unit {0})
  flush_merchant_batch payments =
      flush_loop (create_batch_settlement env) [] 0 (sort_by_time payments)

-- `groups`: a Map from merchant to payments keeps the order in which its keys came.
abbrev pub Groups : Type 0
Groups = List (String × List Payment)

unfoldable pub add_to_group : Payment → Groups → Groups
add_to_group p [] = (p.merchant_id, p ∷ []) ∷ []
add_to_group p ((m, ps) ∷ gs) =
    let rest = add_to_group p gs in
    if str_eq m p.merchant_id then (m, ps ++ p ∷ []) ∷ gs else (m, ps) ∷ rest

unfoldable pub group_by_merchant : Groups → List Payment → Groups
unfolding add_to_group
group_by_merchant gs [] = gs
group_by_merchant gs (p ∷ ps) = group_by_merchant (add_to_group p gs) ps

-- `confirmedPayments` is what the query finds. Nothing is done if that is nothing.
unfoldable pub batch_small_confirmed_payments : Env → List Payment → Action (Unit {0})
batch_small_confirmed_payments env confirmed =
    for_each (group_by_merchant [] confirmed) (λ g. flush_merchant_batch env g.1)
