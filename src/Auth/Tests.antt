-- ===== src/Auth/Tests.antt =====
-- Runs of registration, login and sessions, and their theorems at concrete inputs.
use Prim.Native.Char.{code}
use dabdub.Prelude.{
  ◌==◌, ◌≡◌, refl, true, false, Option, none, some, String, List, [], ◌∷◌, arith, ap, ◌∙◌,
  if◌then◌else◌, str_eq,
}
use dabdub.Platform.Actions.{ok}
use dabdub.Admin.Store.{Merchant, MerchantRole, MerchantStatus, find_merchant}
use dabdub.Cache.Envelope.{Codec, CodecLaws}
use dabdub.Cache.Samples.{
  empty_table, table_redis, table_redis_laws, plain_codec, plain_codec_laws, put, read, read-put,
}
use dabdub.Auth.{
  Cached, Session, TokenPayload, Outside, register, login, response, validate, find_by_email,
}
use dabdub.Auth.Laws.{validate-validate}

role_letter : MerchantRole → String
role_letter MerchantRole.admin = "a"
role_letter MerchantRole.merchant = "m"
role_letter MerchantRole.superadmin = "s"

role_of : String → MerchantRole
role_of s =
    if str_eq s "a"
    then MerchantRole.admin
    else if str_eq s "m"
    then MerchantRole.merchant
    else MerchantRole.superadmin

role_back : (r : MerchantRole) → role_of (role_letter r) ≡ r
unfolding role_of role_letter
role_back MerchantRole.admin = refl
role_back MerchantRole.merchant = refl
role_back MerchantRole.superadmin = refl

write_cached : Cached → String
write_cached (Cached.mark true) = "t"
write_cached (Cached.mark false) = "f"
write_cached (Cached.session s) =
    String.◌∷◌ "s" (put s.merchant_id (put s.email (role_letter s.role)))

with_rest : String → Option (String × String) → Option Cached
with_rest id none = none
with_rest id (some (email, role)) =
    some (Cached.session (record { merchant_id = id; email = email; role = role_of role }))

with_id : Option (String × String) → Option Cached
with_id none = none
with_id (some (id, rest)) = with_rest id (read rest)

read_cached : String → Option Cached
read_cached String.[] = none
read_cached (String.◌∷◌ c s) =
    let session = with_id (read s) in
    if code c == 115
    then session
    else if code c == 116
    then some (Cached.mark true)
    else some (Cached.mark false)

cached_back : (c : Cached) → read_cached (write_cached c) ≡ some c
unfolding read_cached write_cached with_id with_rest
cached_back (Cached.mark true) = refl
cached_back (Cached.mark false) = refl
cached_back (Cached.session s) =
    ap with_id (read-put s.merchant_id (put s.email (role_letter s.role)))
    ∙ ap (with_rest s.merchant_id) (read-put s.email (role_letter s.role))
    ∙ ap
        (λ r.
          some (Cached.session (record { merchant_id = s.merchant_id; email = s.email; role = r })))
        (role_back s.role)

abbrev codec : Codec Cached
codec = plain_codec write_cached read_cached

laws : CodecLaws codec
laws = plain_codec_laws write_cached read_cached cached_back

abbrev out : Outside
out = record { hash = λ p. p; compare = λ p h. str_eq p h; sign = λ c. c.sub; fresh_id = "m1" }

abbrev registered : List Merchant
unfolding register find_by_email
registered =
    (register out (record { email = "ada@example.org"; password = "secret"; business_name = "Ada" })
      []).1

-- A suspended merchant still logs in.
suspended_logs_in :
    (m : Merchant)
    → login out
        (record { email = "ada@example.org"; password = "secret" })
        (record m {
          email = "ada@example.org";
          password_hash = "secret";
          status = MerchantStatus.suspended;
          deleted_at = none;
        }
          ∷ [])
      ≡ ok (
          response out (record m {
            email = "ada@example.org";
            password_hash = "secret";
            status = MerchantStatus.suspended;
            deleted_at = none;
          }))
unfolding login find_by_email
suspended_logs_in m = refl

-- The payload of a token as login signs it: no id of its own.
abbrev token : TokenPayload
token = record { jti = none; sub = "m1"; exp = some 600 }

abbrev ada : Session
ada = record { merchant_id = "m1"; email = "ada@example.org"; role = MerchantRole.merchant }

accepted :
    (validate table_redis codec "test:cache:" token 5_000 registered empty_table).0
    ≡ ok (Cached.session ada)
unfolding validate find_merchant registered
accepted = refl

validate-validate_example :
    let r' = (validate table_redis codec "test:cache:" token 5_000 registered empty_table).1 in
    validate table_redis codec "test:cache:" token 9_000 [] r' ≡ (ok (Cached.session ada), r')
validate-validate_example =
    validate-validate table_redis codec "test:cache:" table_redis_laws laws token token 600 5_000
      9_000 registered [] empty_table (Cached.session ada) refl (omega arith) refl refl accepted
