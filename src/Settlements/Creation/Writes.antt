-- ===== src/Settlements/Creation/Writes.antt =====
-- The payment rows that `initiateSettlement` writes, also where it throws.
use dabdub.Prelude.{ℕ, ◌≡◌, ◌⊎◌, inl, inr, String, List, ◌∷◌, arith, Bool-cases, ltb}
use dabdub.Platform.Entities.{Payment}
use dabdub.Platform.Actions.{Env, History, written}
use dabdub.Platform.Runs.{Leads}
use dabdub.Settlements.Creation.{small_batch_threshold, link_payment, initiate_settlement}

-- No row, or the payment linked to a settlement.
abbrev pub Linked : Payment → List Payment → History → Type 0
Linked p rows h =
    (written h ≡ rows) ⊎ ((fee : ℕ) × (id : String) × (written h ≡ link_payment fee id p ∷ rows))

module _ (env : Env) (p : Payment) (rows : List Payment) where
  -- However it ends, `initiateSettlement` writes no payment, or the one payment linked.
  pub initiate_settlement-Linked :
      Leads (λ h. written h ≡ rows) (initiate_settlement env p) (Linked p rows)
  unfolding initiate_settlement written
  initiate_settlement-Linked h same = elim (Bool-cases (ltb p.amount_usd small_batch_threshold)) [
    | inl small ↦ ground arith
    | inr big ↦ ground arith
  ]
