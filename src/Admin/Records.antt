-- ===== src/Admin/Records.antt =====
-- `restoreRecord` and `deleteRecord` of backend/src/admin/admin.service.ts.
use dabdub.Prelude.{
  Bool, true, false, ◌&&◌, not, Option, none, some, String, map, if◌then◌else◌, str_eq, ℕ,
}
use dabdub.Platform.Actions.{Result, ok, err, Error}
use dabdub.Platform.Stores.{StoreAction, checked}
use dabdub.Admin.Service.{Outside, is_superadmin}
use dabdub.Admin.Store.{
  MerchantRole, Store, find_merchant_or_deleted, find_payment_or_deleted, or_not_found,
  without_merchant, without_payment, soft_deleted_merchant, restored_merchant, soft_deleted_payment,
  restored_payment,
}

-- `if (!record.deletedAt) throw …`
abbrev pub assert_deleted : (text : String) → Option ℕ → Result (Unit {0})
assert_deleted text none = err (Error.bad_request text)
assert_deleted text (some t) = ok tt

abbrev pub restore_merchant : (id : String) → StoreAction Store String
restore_merchant id s =
    checked (or_not_found "Merchant not found" (find_merchant_or_deleted id s.merchants))
      (λ m.
        checked (assert_deleted "Merchant is not deleted" m.deleted_at)
          (λ _ s. (ok id, record s { merchants = map (restored_merchant id) s.merchants })))
      s

abbrev pub restore_payment : (id : String) → StoreAction Store String
restore_payment id s =
    checked (or_not_found "Payment not found" (find_payment_or_deleted id s.payments))
      (λ p.
        checked (assert_deleted "Payment is not deleted" p.deleted_at)
          (λ _ s. (ok id, record s { payments = map (restored_payment id) s.payments })))
      s

unfoldable pub restore_record : (entity id : String) → StoreAction Store String
unfolding find_merchant_or_deleted find_payment_or_deleted
restore_record entity id s =
    if str_eq entity "merchants"
    then restore_merchant id s
    else if str_eq entity "payments"
    then restore_payment id s
    else (err (Error.bad_request "Invalid entity type"), s)

abbrev pub delete_merchant :
    Outside → (id : String) → (hard : Bool) → StoreAction Store (String × Bool)
delete_merchant out id hard s =
    checked (or_not_found "Merchant not found" (find_merchant_or_deleted id s.merchants))
      (λ _ s.
        if hard
        then (ok (id, true), record s { merchants = without_merchant id s.merchants })
        else (
          ok (id, false),
          record s { merchants = map (soft_deleted_merchant id out.now) s.merchants },
        ))
      s

abbrev pub delete_payment :
    Outside → (id : String) → (hard : Bool) → StoreAction Store (String × Bool)
delete_payment out id hard s =
    checked (or_not_found "Payment not found" (find_payment_or_deleted id s.payments))
      (λ _ s.
        if hard then (ok (id, true), record s { payments = without_payment id s.payments }) else (
          ok (id, false),
          record s { payments = map (soft_deleted_payment id out.now) s.payments },
        ))
      s

unfoldable pub delete_record :
    Outside
    → (entity id : String) → (hard : Bool) → (actor_role : MerchantRole)
    → StoreAction Store (String × Bool)
unfolding find_merchant_or_deleted find_payment_or_deleted without_merchant without_payment
delete_record out entity id hard actor_role s =
    if hard && not (is_superadmin actor_role)
    then (err (Error.forbidden "Only SUPERADMIN can hard delete records"), s)
    else if str_eq entity "merchants"
    then delete_merchant out id hard s
    else if str_eq entity "payments"
    then delete_payment out id hard s
    else (err (Error.bad_request "Invalid entity type"), s)
