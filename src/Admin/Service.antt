-- ===== src/Admin/Service.antt =====
-- The methods of `AdminService` (backend/src/admin/admin.service.ts) that change merchants and payments. Hashing
-- and random bytes are parameters of `Outside`, as is HMAC-SHA1; wording of the URI for the authenticator apart.
use Prim.Native.String
use dabdub.Prelude.{
  ℕ, ◌/◌, Bool, true, false, not, Option, none, some, String, List, [], ◌∷◌, if◌then◌else◌, truthy,
}
use dabdub.Platform.Actions.{Result, ok, err, Error, message}
use dabdub.Platform.Stores.{StoreAction, checked, after_write}
use dabdub.Admin.Base32.{base32_encode}
use dabdub.Admin.Totp.{verify_totp_token}
use dabdub.Admin.Store.{
  Merchant, MerchantStatus, MerchantRole, Store, find_merchant, or_not_found, save_merchant,
  insert_merchant, without_merchant, take_payments,
}

-- What comes from elsewhere: bcrypt's hash, the random bytes of a secret, the id of a new row, the
-- clock in milliseconds, and Node's HMAC.
pub record Outside : Type 0 where
  pub hash : String → String
  pub random_bytes : List ℕ
  pub fresh_id : String
  pub now : ℕ
  pub hmac_sha1 : (key text : List ℕ) → List ℕ

-- `sanitize`: the row without its hashes.
pub record SanitizedMerchant : Type 0 where
  pub id : String
  pub email : String
  pub business_name : String
  pub status : MerchantStatus
  pub role : MerchantRole
  pub sandbox_mode : Bool
  pub totp_secret : Option String
  pub totp_enabled : Bool
  pub allowed_ips : Option String
  pub deleted_at : Option ℕ

abbrev pub sanitize : Merchant → SanitizedMerchant
sanitize m = record {
  id = m.id;
  email = m.email;
  business_name = m.business_name;
  status = m.status;
  role = m.role;
  sandbox_mode = m.sandbox_mode;
  totp_secret = m.totp_secret;
  totp_enabled = m.totp_enabled;
  allowed_ips = m.allowed_ips;
  deleted_at = m.deleted_at;
}

abbrev pub respond : {A B : Type 0} → B → A → StoreAction Store B
respond b a s = (ok b, s)

-- `findOne`, with its exception, and what follows.
abbrev pub with_merchant :
    {B : Type 0} → (id : String) → (Merchant → StoreAction Store B) → StoreAction Store B
with_merchant id f s =
    checked (or_not_found "Merchant not found" (find_merchant id s.merchants)) f s

-- The change of one row: `findOne`, `save`, `sanitize`.
abbrev pub change_merchant :
    (id : String) → (Merchant → Merchant) → StoreAction Store SanitizedMerchant
change_merchant id change =
    with_merchant id (λ m. after_write (save_merchant (change m)) (respond (sanitize (change m))))

abbrev pub with_status : MerchantStatus → Merchant → Merchant
with_status status m = record m { status = status }

unfoldable pub update_merchant_status :
    (id : String) → MerchantStatus → StoreAction Store SanitizedMerchant
update_merchant_status id status = change_merchant id (with_status status)

-- Which ids succeeded, and which failed with what message.
abbrev pub BulkResults : Type 0
BulkResults = List String × List (String × String)

abbrev pub add_result : {A : Type 0} → (id : String) → Result A → BulkResults → BulkResults
add_result id (ok a) (success, failed) = (id ∷ success, failed)
add_result id (err e) (success, failed) = (success, (id, message e) ∷ failed)

-- The loop with its `try`; no id ends it.
unfoldable pub bulk_update_merchant_status :
    (ids : List String) → MerchantStatus → Store → BulkResults × Store
unfolding update_merchant_status
bulk_update_merchant_status [] status s = (([], []), s)
bulk_update_merchant_status (id ∷ ids) status s =
    let (r, s') = update_merchant_status id status s in
    let (results, s'') = bulk_update_merchant_status ids status s' in (add_result id r results, s'')

abbrev pub is_superadmin : MerchantRole → Bool
is_superadmin MerchantRole.superadmin = true
is_superadmin _ = false

abbrev pub is_admin : MerchantRole → Bool
is_admin MerchantRole.admin = true
is_admin _ = false

abbrev pub new_admin : Outside → (email password business_name : String) → Merchant
new_admin out email password business_name = record {
  id = out.fresh_id;
  email = email;
  password_hash = out.hash password;
  business_name = business_name;
  status = MerchantStatus.active;
  role = MerchantRole.admin;
  api_key_hash = none;
  sandbox_mode = false;
  totp_secret = none;
  totp_enabled = false;
  allowed_ips = none;
  deleted_at = none;
}

unfoldable pub create_admin :
    Outside
    → (email password business_name : String) → (actor_role : MerchantRole)
    → StoreAction Store SanitizedMerchant
unfolding insert_merchant
create_admin out email password business_name actor_role s =
    let row = new_admin out email password business_name in
    if not (is_superadmin actor_role)
    then (err (Error.forbidden "Only SUPERADMIN can create admin users"), s)
    else after_write (insert_merchant row) (respond (sanitize row)) s

abbrev pub remove_admin : (id : String) → Merchant → StoreAction Store String
remove_admin id m s =
    if not (is_admin m.role)
    then (err (Error.bad_request "Target user is not an ADMIN"), s)
    else (ok id, record s { merchants = without_merchant id s.merchants })

unfoldable pub delete_admin : (id : String) → (actor_role : MerchantRole) → StoreAction Store String
delete_admin id actor_role s =
    if not (is_superadmin actor_role)
    then (err (Error.forbidden "Only SUPERADMIN can delete admin users"), s)
    else with_merchant id (remove_admin id) s

abbrev pub with_secret : (secret : String) → Merchant → Merchant
with_secret secret m = record m { totp_secret = some secret }

unfoldable pub setup_admin_totp : Outside → (id : String) → StoreAction Store String
unfolding base32_encode
setup_admin_totp out id =
    let secret = base32_encode out.random_bytes in
    with_merchant id (λ m. after_write (save_merchant (with_secret secret m)) (respond secret))

abbrev pub enabled : Merchant → Merchant
enabled m = record m { totp_enabled = true }

abbrev pub save_if : Bool → Merchant → StoreAction Store Bool
save_if true m s = after_write (save_merchant m) (respond true) s
save_if false m s = (ok false, s)

abbrev pub verify_with :
    Outside → (token : String) → Merchant → Option String → StoreAction Store Bool
verify_with out token m none s =
    (err (Error.bad_request "TOTP has not been set up for this user"), s)
verify_with out token m (some secret) s =
    save_if (verify_totp_token out.hmac_sha1 (out.now / 1000) secret token) (enabled m) s

unfoldable pub verify_admin_totp : Outside → (id token : String) → StoreAction Store Bool
unfolding verify_totp_token
verify_admin_totp out id token =
    with_merchant id (λ m. verify_with out token m (truthy m.totp_secret))

abbrev pub joined : List String → String
joined [] = ""
joined (ip ∷ []) = ip
joined (ip ∷ ips) = String.◌++◌ ip (String.◌++◌ "," (joined ips))

abbrev pub or_null : List String → Option String
or_null [] = none
or_null (ip ∷ ips) = some (joined (ip ∷ ips))

abbrev pub with_ips : List String → Merchant → Merchant
with_ips ips m = record m { allowed_ips = or_null ips }

unfoldable pub update_admin_allowed_ips :
    (id : String) → (ips : List String) → StoreAction Store SanitizedMerchant
update_admin_allowed_ips id ips = change_merchant id (with_ips ips)

abbrev pub with_sandbox : Bool → Merchant → Merchant
with_sandbox enabled m = record m { sandbox_mode = enabled }

unfoldable pub toggle_sandbox_mode :
    (id : String) → (enabled : Bool) → StoreAction Store SanitizedMerchant
toggle_sandbox_mode id enabled = change_merchant id (with_sandbox enabled)

unfoldable pub reset_sandbox_data : (merchant_id : String) → StoreAction Store ℕ
unfolding take_payments
reset_sandbox_data merchant_id = with_merchant merchant_id (λ m s.
    let (deleted, rest) = take_payments merchant_id s.payments in
    (ok deleted, record s { payments = rest }))
