-- ===== src/Admin/Controller.antt =====
-- The endpoints of backend/src/admin/admin.controller.ts that change merchants and payments, behind
-- `RolesGuard` (backend/src/auth/guards/roles.guard.ts). The guards before it let the request pass and name the
-- user's role.
use dabdub.Prelude.{
  ℕ, Bool, true, false, ◌||◌, Option, none, some, String, List, [], ◌∷◌, if◌then◌else◌, str_eq,
}
use dabdub.Platform.Actions.{Result, ok, err, Error}
use dabdub.Platform.Stores.{StoreAction, checked}
use dabdub.Admin.Store.{MerchantStatus, MerchantRole, Store}
use dabdub.Admin.Service.{
  Outside, SanitizedMerchant, BulkResults, update_merchant_status, bulk_update_merchant_status,
  create_admin, delete_admin, setup_admin_totp, verify_admin_totp, update_admin_allowed_ips,
  toggle_sandbox_mode, reset_sandbox_data,
}
use dabdub.Admin.Records.{restore_record, delete_record}

abbrev pub same_role : MerchantRole → MerchantRole → Bool
same_role MerchantRole.admin MerchantRole.admin = true
same_role MerchantRole.merchant MerchantRole.merchant = true
same_role MerchantRole.superadmin MerchantRole.superadmin = true
same_role _ _ = false

-- `requiredRoles.includes(role)`
abbrev pub includes_role : List MerchantRole → MerchantRole → Bool
includes_role [] role = false
includes_role (r ∷ rs) role = same_role r role || includes_role rs role

-- `!user || !requiredRoles.includes(user.role)`
abbrev pub is_permitted : List MerchantRole → Option MerchantRole → Bool
is_permitted roles none = false
is_permitted roles (some role) = includes_role roles role

-- `RolesGuard.canActivate`, for the roles that the handler or its class asks for.
unfoldable pub can_activate : Option (List MerchantRole) → Option MerchantRole → Result (Unit {0})
can_activate none user = ok tt
can_activate (some roles) user =
    if is_permitted roles user then ok tt else err (Error.forbidden "Insufficient permissions")

-- `@Roles(MerchantRole.ADMIN)` on the controller; no handler has its own.
abbrev pub controller_roles : Option (List MerchantRole)
controller_roles = some (MerchantRole.admin ∷ [])

pub data Request : Type 0 where
  update_status : (id : String) → MerchantStatus → Request
  bulk_update_status : (ids : List String) → MerchantStatus → Request
  post_user : (email password business_name : String) → Request
  delete_user : (id : String) → Request
  setup_totp : (id : String) → Request
  verify_totp : (id token : String) → Request
  patch_allowed_ips : (id : String) → (ips : List String) → Request
  patch_sandbox : (id : String) → (enabled : Bool) → Request
  post_sandbox_reset : (id : String) → Request
  post_restore : (entity id : String) → Request
  delete_entity : (entity id hard : String) → Request

pub data Response : Type 0 where
  merchant_view : SanitizedMerchant → Response
  bulk : BulkResults → Response
  removed : (id : String) → Response
  totp_secret : (secret : String) → Response
  totp_success : Bool → Response
  deleted_payments : ℕ → Response
  record_deleted : (id : String) → (hard_deleted : Bool) → Response

abbrev pub reply : {A : Type 0} → (A → Response) → Result A × Store → Result Response × Store
reply f (ok a, s) = (ok (f a), s)
reply f (err e, s) = (err e, s)

abbrev pub reply_deleted : String × Bool → Response
reply_deleted (id, hard) = Response.record_deleted id hard

abbrev pub reply_bulk : BulkResults × Store → Result Response × Store
reply_bulk (results, s) = (ok (Response.bulk results), s)

-- The handler of a request; `role` is `req.user.role`.
unfoldable pub handle : Outside → (role : MerchantRole) → Request → StoreAction Store Response
unfolding update_merchant_status bulk_update_merchant_status create_admin delete_admin
handle out role (Request.update_status id status) s =
    reply (λ m. Response.merchant_view m) (update_merchant_status id status s)
handle out role (Request.bulk_update_status ids status) s =
    reply_bulk (bulk_update_merchant_status ids status s)
handle out role (Request.post_user email password business_name) s =
    reply (λ m. Response.merchant_view m) (create_admin out email password business_name role s)
handle out role (Request.delete_user id) s =
    reply (λ id. Response.removed id) (delete_admin id role s)
handle out role (Request.setup_totp id) s =
    reply (λ secret. Response.totp_secret secret) (setup_admin_totp out id s)
handle out role (Request.verify_totp id token) s =
    reply (λ success. Response.totp_success success) (verify_admin_totp out id token s)
handle out role (Request.patch_allowed_ips id ips) s =
    reply (λ m. Response.merchant_view m) (update_admin_allowed_ips id ips s)
handle out role (Request.patch_sandbox id enabled) s =
    reply (λ m. Response.merchant_view m) (toggle_sandbox_mode id enabled s)
handle out role (Request.post_sandbox_reset id) s =
    reply (λ n. Response.deleted_payments n) (reset_sandbox_data id s)
handle out role (Request.post_restore entity id) s =
    reply (λ id. Response.removed id) (restore_record entity id s)
handle out role (Request.delete_entity entity id hard) s =
    reply reply_deleted (delete_record out entity id (str_eq hard "true") role s)

-- A request of a user, or of none: the guard and then the handler.
unfoldable pub serve : Outside → Option MerchantRole → Request → StoreAction Store Response
unfolding can_activate handle
serve out none request s =
    checked (can_activate controller_roles none) (λ _ s. (err (Error.failure "no user"), s)) s
serve out (some role) request s =
    checked (can_activate controller_roles (some role)) (λ _. handle out role request) s

-- Requests one after the other, each with what comes from elsewhere at its time.
unfoldable pub serve_all : List (Outside × Option MerchantRole × Request) → Store → Store
unfolding serve
serve_all [] s = s
serve_all ((out, user, request) ∷ requests) s = serve_all requests (serve out user request s).1
