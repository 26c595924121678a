-- ===== src/Admin/Store.antt =====
-- The tables that backend/src/admin/admin.service.ts writes: the merchants
-- (backend/src/merchants/entities/merchant.entity.ts) and, of the payments, what deletion needs.
-- Columns that the service passes on untouched are left out, and so are failures of the database.
use dabdub.Prelude.{
  ℕ, suc, Bool, true, false, ◌&&◌, ◌||◌, Option, none, some, String, List, [], ◌∷◌, ◌++◌, map,
  if◌then◌else◌, str_eq,
}
use dabdub.Platform.Actions.{Result, ok, err, Error}
use dabdub.Platform.Stores.{StoreAction}

pub data MerchantStatus : Type 0 where
  active suspended pending : MerchantStatus

pub data MerchantRole : Type 0 where
  admin merchant superadmin : MerchantRole

pub record Merchant : Type 0 where
  pub id : String
  pub email : String
  pub password_hash : String
  pub business_name : String
  pub status : MerchantStatus
  pub role : MerchantRole
  pub api_key_hash : Option String
  pub sandbox_mode : Bool
  pub totp_secret : Option String
  pub totp_enabled : Bool
  pub allowed_ips : Option String
  pub deleted_at : Option ℕ

-- A payment's row, as far as its deletion goes.
pub record PaymentRow : Type 0 where
  pub id : String
  pub merchant_id : String
  pub deleted_at : Option ℕ

pub record Store : Type 0 where
  pub merchants : List Merchant
  pub payments : List PaymentRow

abbrev pub is_null : Option ℕ → Bool
is_null none = true
is_null (some t) = false

-- `findOne({ where: { id } })`, which passes over what is softly deleted, and with `withDeleted`.
unfoldable pub find_merchant : (id : String) → List Merchant → Option Merchant
find_merchant id [] = none
find_merchant id (m ∷ ms) =
    if str_eq m.id id && is_null m.deleted_at then some m else find_merchant id ms

unfoldable pub find_merchant_or_deleted : (id : String) → List Merchant → Option Merchant
find_merchant_or_deleted id [] = none
find_merchant_or_deleted id (m ∷ ms) =
    if str_eq m.id id then some m else find_merchant_or_deleted id ms

unfoldable pub find_payment_or_deleted : (id : String) → List PaymentRow → Option PaymentRow
find_payment_or_deleted id [] = none
find_payment_or_deleted id (p ∷ ps) =
    if str_eq p.id id then some p else find_payment_or_deleted id ps

-- `if (!row) throw new NotFoundException(message)`
abbrev pub or_not_found : {A : Type 0} → (message : String) → Option A → Result A
or_not_found message none = err (Error.not_found message)
or_not_found message (some a) = ok a

abbrev pub replaced : Merchant → Merchant → Merchant
replaced row m = if str_eq m.id row.id then row else m

-- `save` of a row that was read before.
unfoldable pub save_merchant : Merchant → StoreAction Store Merchant
save_merchant row s = (ok row, record s { merchants = map (replaced row) s.merchants })

unfoldable pub has_email : (email : String) → List Merchant → Bool
has_email email [] = false
has_email email (m ∷ ms) = str_eq m.email email || has_email email ms

-- `save` of a new row; the column of e-mail addresses is unique.
unfoldable pub insert_merchant : Merchant → StoreAction Store Merchant
unfolding has_email
insert_merchant row s =
    if has_email row.email s.merchants
    then (err (Error.failure "duplicate key value violates unique constraint"), s)
    else (ok row, record s { merchants = s.merchants ++ (row ∷ []) })

-- The rows but those with the id: `remove` and `delete`.
unfoldable pub without_merchant : (id : String) → List Merchant → List Merchant
without_merchant id [] = []
without_merchant id (m ∷ ms) =
    let rest = without_merchant id ms in if str_eq m.id id then rest else m ∷ rest

unfoldable pub without_payment : (id : String) → List PaymentRow → List PaymentRow
without_payment id [] = []
without_payment id (p ∷ ps) =
    let rest = without_payment id ps in if str_eq p.id id then rest else p ∷ rest

-- `softDelete` writes the time, `restore` takes it away.
abbrev pub soft_deleted_merchant : (id : String) → (now : ℕ) → Merchant → Merchant
soft_deleted_merchant id now m = if str_eq m.id id then record m { deleted_at = some now } else m

abbrev pub restored_merchant : (id : String) → Merchant → Merchant
restored_merchant id m = if str_eq m.id id then record m { deleted_at = none } else m

abbrev pub soft_deleted_payment : (id : String) → (now : ℕ) → PaymentRow → PaymentRow
soft_deleted_payment id now p = if str_eq p.id id then record p { deleted_at = some now } else p

abbrev pub restored_payment : (id : String) → PaymentRow → PaymentRow
restored_payment id p = if str_eq p.id id then record p { deleted_at = none } else p

-- The rows that `find({ where: { merchantId } })` returns are removed: those not softly deleted.
abbrev pub is_live_of : (merchant_id : String) → PaymentRow → Bool
is_live_of merchant_id p = str_eq p.merchant_id merchant_id && is_null p.deleted_at

-- How many they are, and the rows left.
unfoldable pub take_payments : (merchant_id : String) → List PaymentRow → ℕ × List PaymentRow
take_payments id [] = (0, [])
take_payments id (p ∷ ps) =
    let (n, rest) = take_payments id ps in if is_live_of id p then (suc n, rest) else (n, p ∷ rest)
