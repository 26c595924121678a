-- ===== src/Admin/Accounts.antt =====
-- Who is in the table of merchants, with which password hash and role, before and after requests to the
-- controller, and which requests are always refused.
use dabdub.Prelude.{
  ◌/◌, Bool, true, false, Option, none, some, String, List, [], ◌∷◌, map, str_eq, truthy, ◌≡◌, refl,
  sym, ◌∙◌, subst, inl, inr, Option-cases,
}
use dabdub.Admin.Keys.{
  Account, account, HasKeys, found-SameAs, accounts_saved, accounts_mapped, account-if,
}
use dabdub.Platform.Actions.{Result, ok, err, Error}
use dabdub.Platform.Stores.{StoreAction, StoreKeeps, checked, checked-StoreKeeps, if-store}
use dabdub.Admin.Store.{
  Merchant, MerchantRole, MerchantStatus, Store, find_merchant, save_merchant, or_not_found,
  soft_deleted_merchant, restored_merchant, find_merchant_or_deleted, find_payment_or_deleted,
}
use dabdub.Admin.Service.{
  Outside, with_merchant, update_merchant_status, bulk_update_merchant_status, create_admin,
  delete_admin, setup_admin_totp, verify_admin_totp, update_admin_allowed_ips, toggle_sandbox_mode,
  reset_sandbox_data, with_status, with_secret, with_ips, with_sandbox, enabled, verify_with,
  save_if, BulkResults,
}
use dabdub.Admin.Totp.{verify_totp_token}
use dabdub.Admin.Base32.{base32_encode}
use dabdub.Admin.Records.{assert_deleted, restore_record, delete_record}
use dabdub.Admin.Controller.{
  can_activate, Request, Response, reply, reply_bulk, handle, serve, serve_all,
}

module _ (xs : List Account) (keys : HasKeys xs) where
  abbrev Accounts : Store → Type 0
  Accounts s = map account s.merchants ≡ xs

  saved-Accounts :
      (s : Store) (id : String) (row m : Merchant)
      → Accounts s
      → find_merchant id s.merchants ≡ some m
      → account row ≡ account m
      → Accounts (save_merchant row s).1
  unfolding save_merchant
  saved-Accounts s id row m now found same =
      accounts_saved row m s.merchants same
        (found-SameAs id s.merchants m (subst HasKeys (sym now) keys) found)
      ∙ now

  with_merchant-Accounts :
      {B : Type 0} (id : String) (f : Merchant → StoreAction Store B)
      → ((m : Merchant) (s : Store)
          → find_merchant id s.merchants ≡ some m
          → Accounts s
          → Accounts (f m s).1)
      → StoreKeeps Accounts (with_merchant id f)
  with_merchant-Accounts id f keeps s now = elim (Option-cases (find_merchant id s.merchants)) [
    | inl e ↦
        subst (λ o. Accounts (checked (or_not_found "Merchant not found" o) f s).1) (sym e) now
    | inr (m, e) ↦
        subst (λ o. Accounts (checked (or_not_found "Merchant not found" o) f s).1) (sym e)
          (keeps m s e now)
  ]

  update_merchant_status-Accounts :
      (id : String) (status : MerchantStatus)
      → StoreKeeps Accounts (update_merchant_status id status)
  unfolding update_merchant_status save_merchant
  update_merchant_status-Accounts id status =
      with_merchant-Accounts id _
        (λ m s found now. saved-Accounts s id (with_status status m) m now found refl)

  bulk-Accounts :
      (ids : List String) (status : MerchantStatus) (s : Store)
      → Accounts s
      → Accounts (bulk_update_merchant_status ids status s).1
  unfolding bulk_update_merchant_status
  bulk-Accounts [] status s now = now
  bulk-Accounts (id ∷ ids) status s now =
      bulk-Accounts ids status (update_merchant_status id status s).1
        (update_merchant_status-Accounts id status s now)

  save_if-Accounts :
      (c : Bool) (s : Store) (id : String) (m : Merchant)
      → find_merchant id s.merchants ≡ some m
      → Accounts s
      → Accounts (save_if c (enabled m) s).1
  unfolding save_merchant
  save_if-Accounts true s id m found now = saved-Accounts s id (enabled m) m now found refl
  save_if-Accounts false s id m found now = now

  verify_with-Accounts :
      (out : Outside) (id token : String) (m : Merchant) (secret : Option String) (s : Store)
      → find_merchant id s.merchants ≡ some m
      → Accounts s
      → Accounts (verify_with out token m secret s).1
  verify_with-Accounts out id token m none s found now = now
  verify_with-Accounts out id token m (some secret) s found now =
      save_if-Accounts (verify_totp_token out.hmac_sha1 (out.now / 1000) secret token) s id m found
        now

  mapped-Accounts :
      (f : Merchant → Merchant)
      → ((m : Merchant) → account (f m) ≡ account m)
      → (s : Store) → Accounts s
      → Accounts (record s { merchants = map f s.merchants })
  mapped-Accounts f same s now = accounts_mapped f same s.merchants ∙ now

  restore_record-Accounts : (entity id : String) → StoreKeeps Accounts (restore_record entity id)
  unfolding restore_record
  restore_record-Accounts entity id s now =
      if-store Accounts (str_eq entity "merchants") _ _
        (λ _.
          checked-StoreKeeps Accounts
            (or_not_found "Merchant not found" (find_merchant_or_deleted id s.merchants)) _
            (λ m.
              checked-StoreKeeps Accounts (assert_deleted "Merchant is not deleted" m.deleted_at) _
                (λ _.
                  mapped-Accounts (restored_merchant id)
                    (λ m. account-if (str_eq m.id id) (record m { deleted_at = none }) m refl)))
            s now)
        (λ _.
          if-store Accounts (str_eq entity "payments") _ _
            (λ _.
              checked-StoreKeeps Accounts
                (or_not_found "Payment not found" (find_payment_or_deleted id s.payments)) _
                (λ p.
                  checked-StoreKeeps Accounts (assert_deleted "Payment is not deleted" p.deleted_at)
                    _ (λ _ s now. now))
                s now)
            (λ _. now))

  -- A deletion by an administrator: a hard one is refused, a soft one leaves the rows.
  delete_record-Accounts :
      (out : Outside) (entity id : String) (hard : Bool)
      → StoreKeeps Accounts (delete_record out entity id hard MerchantRole.admin)
  unfolding delete_record
  delete_record-Accounts out entity id true s now = now
  delete_record-Accounts out entity id false s now =
      if-store Accounts (str_eq entity "merchants") _ _
        (λ _.
          checked-StoreKeeps Accounts
            (or_not_found "Merchant not found" (find_merchant_or_deleted id s.merchants)) _
            (λ m.
              mapped-Accounts (soft_deleted_merchant id out.now)
                (λ m. account-if (str_eq m.id id) (record m { deleted_at = some out.now }) m refl))
            s now)
        (λ _.
          if-store Accounts (str_eq entity "payments") _ _
            (λ _.
              checked-StoreKeeps Accounts
                (or_not_found "Payment not found" (find_payment_or_deleted id s.payments)) _
                (λ p s now. now) s now)
            (λ _. now))

  reply-Accounts :
      {A : Type 0} (f : A → Response) (r : Result A × Store) → Accounts r.1 → Accounts (reply f r).1
  reply-Accounts f (ok a, s) now = now
  reply-Accounts f (err e, s) now = now

  reply_bulk-Accounts : (r : BulkResults × Store) → Accounts r.1 → Accounts (reply_bulk r).1
  reply_bulk-Accounts (results, s) now = now

  handle-Accounts :
      (out : Outside) (request : Request)
      → StoreKeeps Accounts (handle out MerchantRole.admin request)
  unfolding handle create_admin delete_admin setup_admin_totp verify_admin_totp
      update_admin_allowed_ips toggle_sandbox_mode reset_sandbox_data save_merchant
  handle-Accounts out (Request.update_status id status) s now =
      reply-Accounts _ _ (update_merchant_status-Accounts id status s now)
  handle-Accounts out (Request.bulk_update_status ids status) s now =
      reply_bulk-Accounts (bulk_update_merchant_status ids status s)
        (bulk-Accounts ids status s now)
  handle-Accounts out (Request.post_user email password business_name) s now = now
  handle-Accounts out (Request.delete_user id) s now = now
  handle-Accounts out (Request.setup_totp id) s now = reply-Accounts _ _ (
      with_merchant-Accounts id _
        (λ m s found now.
          saved-Accounts s id (with_secret (base32_encode out.random_bytes) m) m now found refl)
        s now)
  handle-Accounts out (Request.verify_totp id token) s now = reply-Accounts _ _ (
      with_merchant-Accounts id _
        (λ m s found now. verify_with-Accounts out id token m (truthy m.totp_secret) s found now) s
        now)
  handle-Accounts out (Request.patch_allowed_ips id ips) s now = reply-Accounts _ _ (
      with_merchant-Accounts id _
        (λ m s found now. saved-Accounts s id (with_ips ips m) m now found refl) s now)
  handle-Accounts out (Request.patch_sandbox id enabled) s now = reply-Accounts _ _ (
      with_merchant-Accounts id _
        (λ m s found now. saved-Accounts s id (with_sandbox enabled m) m now found refl) s now)
  handle-Accounts out (Request.post_sandbox_reset id) s now =
      reply-Accounts _ _ (with_merchant-Accounts id _ (λ m s found now. now) s now)
  handle-Accounts out (Request.post_restore entity id) s now =
      reply-Accounts _ _ (restore_record-Accounts entity id s now)
  handle-Accounts out (Request.delete_entity entity id hard) s now =
      reply-Accounts _ _ (delete_record-Accounts out entity id (str_eq hard "true") s now)

  serve-Accounts :
      (out : Outside) (user : Option MerchantRole) (request : Request)
      → StoreKeeps Accounts (serve out user request)
  unfolding serve can_activate
  serve-Accounts out none request s now = now
  serve-Accounts out (some MerchantRole.admin) request s now = handle-Accounts out request s now
  serve-Accounts out (some MerchantRole.merchant) request s now = now
  serve-Accounts out (some MerchantRole.superadmin) request s now = now

  all-Accounts :
      (requests : List (Outside × Option MerchantRole × Request)) (s : Store)
      → Accounts s
      → Accounts (serve_all requests s)
  unfolding serve_all
  all-Accounts [] s now = now
  all-Accounts ((out, user, request) ∷ requests) s now =
      all-Accounts requests (serve out user request s).1 (serve-Accounts out user request s now)

-- A request ends in a refusal of what the user may do, and changes nothing.
abbrev pub Refused : Store → Result Response × Store → Type 0
Refused s r = (m : String) × (r ≡ (err (Error.forbidden m), s))

-- No user passes both the guard and the method's own test of the role.
Refused-serve :
    (out : Outside) (user : Option MerchantRole) (s : Store) (request : Request)
    → Refused s (handle out MerchantRole.admin request s)
    → Refused s (serve out user request s)
unfolding serve can_activate
Refused-serve out none s request e = ("Insufficient permissions", refl)
Refused-serve out (some MerchantRole.admin) s request e = e
Refused-serve out (some MerchantRole.merchant) s request e = ("Insufficient permissions", refl)
Refused-serve out (some MerchantRole.superadmin) s request e = ("Insufficient permissions", refl)

-- Whatever requests come to the controller, from users of any role: when the rows have different
-- ids, the same rows stay in the table, softly deleted or not, each with its id, address, password
-- hash and role. After those requests, creating an administrator, deleting one, and a hard deletion
-- of any record are each refused as forbidden, with no change, for users of every role. What the
-- requests do to the status, the soft deletion, the second factor, the addresses allowed and the
-- sandbox mode of a row is not stated.
pub serve_all-account :
    (requests : List (Outside × Option MerchantRole × Request)) (s : Store) (out : Outside)
    (user : Option MerchantRole) (email password name id entity : String)
    → HasKeys (map account s.merchants)
    → let t = serve_all requests s in
      (map account t.merchants ≡ map account s.merchants)
      × Refused t (serve out user (Request.post_user email password name) t)
      × Refused t (serve out user (Request.delete_user id) t)
      × Refused t (serve out user (Request.delete_entity entity id "true") t)
unfolding handle create_admin delete_admin delete_record
serve_all-account requests s out user email password name id entity keys =
    let t = serve_all requests s in
    (
      all-Accounts (map account s.merchants) keys requests s refl,
      Refused-serve out user t (Request.post_user email password name) (_, refl),
      Refused-serve out user t (Request.delete_user id) (_, refl),
      Refused-serve out user t (Request.delete_entity entity id "true") (_, refl),
    )
