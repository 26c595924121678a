-- ===== src/Admin/Restoring.antt =====
-- Soft deletion and its undoing: `deleteRecord` and `restoreRecord` of backend/src/admin/admin.service.ts.
use dabdub.Prelude.{
  ℕ, Bool, true, false, none, some, String, List, [], ◌∷◌, map, if◌then◌else◌, str_eq, eq_iff, ◌≡◌,
  refl, sym, ap, ◌∙◌, All, Bool-cases, inl, inr, arith,
}
use dabdub.Platform.Actions.{ok}
use dabdub.Admin.Store.{
  Merchant, MerchantRole, Store, find_merchant_or_deleted, soft_deleted_merchant, restored_merchant,
}
use dabdub.Admin.Service.{Outside}
use dabdub.Admin.Records.{restore_record, delete_record}

-- No row with the id is softly deleted.
abbrev pub IsLiveMerchant : (id : String) → List Merchant → Type 0
IsLiveMerchant id ms = All (λ m. m.id ≡ id → m.deleted_at ≡ none) ms

merchants_back :
    (id : String) (t : ℕ) (ms : List Merchant)
    → IsLiveMerchant id ms
    → map (restored_merchant id) (map (soft_deleted_merchant id t) ms) ≡ ms
merchants_back id t [] live = refl
merchants_back id t (m ∷ ms) live =
    ap (λ x. x ∷ map (restored_merchant id) (map (soft_deleted_merchant id t) ms))
      (back (str_eq m.id id) refl)
    ∙ ap (λ xs. m ∷ xs) (merchants_back id t ms live.1)
  where
    back :
        (c : Bool)
        → str_eq m.id id ≡ c
        → restored_merchant id (if c then record m { deleted_at = some t } else m) ≡ m
    back true e = rw e (ap (λ d. record m { deleted_at = d }) (sym (live.0 ((eq_iff m.id id).0 e))))
    back false e = rw e refl

deleted_merchant_found :
    (id : String) (t : ℕ) (ms : List Merchant) (m : Merchant)
    → find_merchant_or_deleted id ms ≡ some m
    → find_merchant_or_deleted id (map (soft_deleted_merchant id t) ms)
      ≡ some (record m { deleted_at = some t })
unfolding find_merchant_or_deleted
deleted_merchant_found id t [] m e = absurd (ground arith)
deleted_merchant_found id t (x ∷ ms) m e = elim (Bool-cases (str_eq x.id id)) [
  | inl here ↦ ground (arith, here, e)
  | inr other ↦
      let later : find_merchant_or_deleted id ms ≡ some m = ground (arith, other, e) in
      ground (arith, other, deleted_merchant_found id t ms m later)
]

-- A merchant that is in the table, and not softly deleted, is as it was, and the whole store with it, after a
-- soft deletion by a user of any role and a restoration, which succeeds.
restore_record-delete_record :
    (out : Outside) (id : String) (role : MerchantRole) (s : Store) (m : Merchant)
    → find_merchant_or_deleted id s.merchants ≡ some m
    → IsLiveMerchant id s.merchants
    → restore_record "merchants" id (delete_record out "merchants" id false role s).1 ≡ (ok id, s)
unfolding restore_record delete_record
restore_record-delete_record out id role s m found live = rw found (
    rw (deleted_merchant_found id out.now s.merchants m found) (
      ap (λ ms. (ok id, record s { merchants = ms })) (merchants_back id out.now s.merchants live)))
