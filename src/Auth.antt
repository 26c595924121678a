-- ===== src/Auth.antt =====
-- Registration, login and sessions: backend/src/auth/auth.service.ts and
-- backend/src/auth/strategies/jwt.strategy.ts, over the cache and the table of merchants. bcrypt and the signing
-- of tokens are third-party and parameters; so is the check of a token's signature, which hands over its payload.
pub mod Laws
mod Tests
use Prim.Native.String
use dabdub.Prelude.{
  ℕ, ◌+◌, ◌-◌, ◌/◌, ◌==◌, ltb, Bool, true, false, not, ◌&&◌, Option, none, some, String, List, [],
  ◌∷◌, ◌++◌, if◌then◌else◌, str_eq, truthy,
}
use dabdub.Platform.Actions.{Result, ok, err, Error}
use dabdub.Admin.Store.{Merchant, MerchantRole, MerchantStatus, find_merchant, is_null}
use dabdub.Cache.Redis.{Redis}
use dabdub.Cache.Envelope.{Codec}
use dabdub.Cache.Service.{get, set}

pub record Session : Type 0 where
  pub merchant_id : String
  pub email : String
  pub role : MerchantRole

-- What these services keep in the cache: the mark of a session that was ended, or a session.
pub data Cached : Type 0 where
  mark : Bool → Cached
  session : Session → Cached

-- The claims that are signed.
pub record Claims : Type 0 where
  pub sub : String
  pub email : String
  pub role : MerchantRole

-- The payload of a token with a valid signature; `exp` counts seconds.
pub record TokenPayload : Type 0 where
  pub jti : Option String
  pub sub : String
  pub exp : Option ℕ

pub record RegisterDto : Type 0 where
  pub email : String
  pub password : String
  pub business_name : String

pub record LoginDto : Type 0 where
  pub email : String
  pub password : String

pub record AuthTokenResponse : Type 0 where
  pub access_token : String
  pub merchant : Merchant

-- bcrypt, the signing of tokens, and the id of a new row.
pub record Outside : Type 0 where
  pub hash : (password : String) → String
  pub compare : (password hash : String) → Bool
  pub sign : Claims → String
  pub fresh_id : String

pub record AuthStore (R : Type 0) : Type 0 where
  pub cache : R
  pub merchants : List Merchant

-- `findOne({ where: { email } })`
unfoldable pub find_by_email : (email : String) → List Merchant → Option Merchant
find_by_email email [] = none
find_by_email email (m ∷ ms) =
    if str_eq m.email email && is_null m.deleted_at then some m else find_by_email email ms

abbrev pub sign_token : Outside → Merchant → String
sign_token out m = out.sign (record { sub = m.id; email = m.email; role = m.role })

abbrev pub response : Outside → Merchant → AuthTokenResponse
response out m = record { access_token = sign_token out m; merchant = m }

abbrev pub new_merchant : Outside → RegisterDto → Merchant
new_merchant out dto = record {
  id = out.fresh_id;
  email = dto.email;
  password_hash = out.hash dto.password;
  business_name = dto.business_name;
  status = MerchantStatus.active;
  role = MerchantRole.merchant;
  api_key_hash = none;
  sandbox_mode = false;
  totp_secret = none;
  totp_enabled = false;
  allowed_ips = none;
  deleted_at = none;
}

-- `register`: the answer and the table. The failure of an insert is left out.
unfoldable pub register :
    Outside → RegisterDto → List Merchant → Result AuthTokenResponse × List Merchant
unfolding find_by_email
register out dto ms = elim (find_by_email dto.email ms) [
  | some m ↦ (err (Error.conflict "Email already registered"), ms)
  | none ↦ let row = new_merchant out dto in (ok (response out row), ms ++ (row ∷ []))
]

unfoldable pub login : Outside → LoginDto → List Merchant → Result AuthTokenResponse
unfolding find_by_email
login out dto ms = elim (find_by_email dto.email ms) [
  | none ↦ err (Error.unauthorized "Invalid credentials")
  | some m ↦
      if out.compare dto.password m.password_hash
      then ok (response out m)
      else err (Error.unauthorized "Invalid credentials")
]

-- Whether a row has this key; the loop ends at the first.
abbrev pub has_api_key : Outside → (raw_key : String) → Option String → Bool
has_api_key out raw_key none = false
has_api_key out raw_key (some hash) = out.compare raw_key hash

unfoldable pub find_merchant_by_api_key :
    Outside → (raw_key : String) → List Merchant → Option Merchant
find_merchant_by_api_key out raw_key [] = none
find_merchant_by_api_key out raw_key (m ∷ ms) =
    if is_null m.deleted_at && has_api_key out raw_key (truthy m.api_key_hash)
    then some m
    else find_merchant_by_api_key out raw_key ms

-- `!!value`
abbrev pub is_truthy : Option Cached → Bool
is_truthy none = false
is_truthy (some (Cached.mark b)) = b
is_truthy (some (Cached.session s)) = true

-- `entry === true`
abbrev pub is_true : Option Cached → Bool
is_true none = false
is_true (some (Cached.mark b)) = b
is_true (some (Cached.session s)) = false

-- `payload.jti ?? payload.sub`
abbrev pub token_id : TokenPayload → String
token_id payload = elim payload.jti [ none ↦ payload.sub | some jti ↦ jti ]

abbrev pub session_of : Merchant → Session
session_of m = record { merchant_id = m.id; email = m.email; role = m.role }

-- The seconds left, rounded down, or 0; `now` counts milliseconds.
abbrev pub seconds_left : (exp now : ℕ) → ℕ
seconds_left exp now = exp - (now + 999) / 1000

module _ {R : Type 0} (redis : Redis R) (codec : Codec Cached) (ns : String) where
  abbrev pub blacklist_key : (jti : String) → String
  blacklist_key jti = String.◌++◌ "session:blacklist:" jti

  abbrev pub session_key : (jti : String) → String
  session_key jti = String.◌++◌ "session:" jti

  unfoldable pub logout : (jti : String) → (ttl_seconds : ℕ) → R → R
  unfolding set
  logout jti ttl_seconds r =
      set redis codec ns (blacklist_key jti) (Cached.mark true) (some ttl_seconds) r

  unfoldable pub is_blacklisted : (jti : String) → R → Bool
  unfolding get
  is_blacklisted jti r = is_true (get redis codec ns (blacklist_key jti) r)

  -- `if (jti && payload.exp)`, and with a second at least left.
  abbrev pub cache_session : Option String → Option ℕ → (now : ℕ) → Session → R → R
  cache_session none exp now s r = r
  cache_session (some jti) none now s r = r
  cache_session (some jti) (some exp) now s r =
      let left = seconds_left exp now in
      if ltb 0 exp && ltb 0 left
      then set redis codec ns (session_key jti) (Cached.session s) (some left) r
      else r

  -- The look-up in the database, and the session cached.
  abbrev pub from_database :
      Option String → TokenPayload → (now : ℕ) → List Merchant → R → Result Cached × R
  from_database jti payload now ms r = elim (find_merchant payload.sub ms) [
    | none ↦ (err (Error.unauthorized "Merchant not found"), r)
    | some m ↦
        (ok (Cached.session (session_of m)), cache_session jti payload.exp now (session_of m) r)
  ]

  abbrev pub cached_or_database :
      (jti : String)
      → Option Cached
      → TokenPayload
      → (now : ℕ) → List Merchant
      → R
      → Result Cached × R
  cached_or_database jti (some (Cached.session s)) payload now ms r = (ok (Cached.session s), r)
  cached_or_database jti (some (Cached.mark true)) payload now ms r = (ok (Cached.mark true), r)
  cached_or_database jti (some (Cached.mark false)) payload now ms r =
      from_database (some jti) payload now ms r
  cached_or_database jti none payload now ms r = from_database (some jti) payload now ms r

  abbrev pub validate_id :
      Option String → TokenPayload → (now : ℕ) → List Merchant → R → Result Cached × R
  validate_id none payload now ms r = from_database none payload now ms r
  validate_id (some jti) payload now ms r =
      if is_truthy (get redis codec ns (blacklist_key jti) r)
      then (err (Error.unauthorized "Session revoked"), r)
      else cached_or_database jti (get redis codec ns (session_key jti) r) payload now ms r

  -- `JwtStrategy.validate`: the user of the request, and the cache.
  unfoldable pub validate : TokenPayload → (now : ℕ) → List Merchant → R → Result Cached × R
  unfolding get set find_merchant
  validate payload now ms r = validate_id (truthy (some (token_id payload))) payload now ms r
