-- ===== src/Admin/Tests.antt =====
-- Runs of the administration, and its theorems at concrete inputs.
use dabdub.Prelude.{
  ℕ, zero, suc, ◌+◌, ◌%◌, ◌<◌, ◌≤◌, ◌/◌, ◌≡◌, ◌≢◌, ◌↔◌, refl, true, false, Option, none, some,
  String, List, [], ◌∷◌, ◌++◌, map, All, length, inl, ap, ◌∙◌, sum_by, arith, eq_iff,
}
use dabdub.Admin.Base32.{base32_encode, base32_decode}
use dabdub.Admin.Base32.RoundTrip.{IsByte, base32_decode-base32_encode}
use dabdub.Admin.Totp.{verify_totp_token}
use dabdub.Admin.Totp.Steps.{one_time_password, verify_totp_token-base32_encode}
use dabdub.Admin.Store.{Merchant, MerchantRole, MerchantStatus, Store, find_merchant}
use dabdub.Admin.Service.{Outside, reset_sandbox_data}
use dabdub.Admin.Records.{delete_record}
use dabdub.Admin.Controller.{Request, serve, serve_all}
use dabdub.Admin.Keys.{account}
use dabdub.Admin.Accounts.{Refused, serve_all-account}
use dabdub.Cache.Envelope.{Codec}
use dabdub.Cache.Service.{get}
use dabdub.Cache.Samples.{
  Table, empty_table, table_redis, table_redis_laws, plain_codec, plain_codec_laws, put, read,
  read-put, marks, length_of, length_of-marks,
}
use dabdub.Admin.Fees.{FeeConfig, FeeStore, FeeRequest, get_global_fees, serve_fees}
use dabdub.Admin.Fees.Fresh.{IsFresh, get_global_fees-serve_fees}

-- A stand-in for HMAC-SHA1: twenty times one byte, the sum of what is given.
abbrev fill : ℕ → ℕ → List ℕ
fill zero b = []
fill (suc n) b = b ∷ fill n b

fill-All : (n b : ℕ) → b < 256 → All IsByte (fill n b)
fill-All zero b byte = tt
fill-All (suc n) b byte = (byte, fill-All n b byte)

abbrev sum_of : List ℕ → ℕ
sum_of xs = sum_by (λ x. x) xs

abbrev checksum : (key text : List ℕ) → List ℕ
checksum key text = fill 20 (sum_of (key ++ text) % 256)

abbrev hello : List ℕ
hello = 72 ∷ 101 ∷ 108 ∷ 108 ∷ 111 ∷ 255 ∷ []

abbrev hello_bytes : All IsByte hello
hello_bytes =
    (omega arith, (omega arith, (omega arith, (omega arith, (omega arith, (omega arith, tt))))))

-- As RFC 4648 writes it, less the padding.
hello_encoded : base32_encode (72 ∷ 101 ∷ 108 ∷ 108 ∷ 111 ∷ []) ≡ "JBSWY3DP"
unfolding base32_encode
hello_encoded = refl

base32_decode-base32_encode_example : base32_decode (base32_encode hello) ≡ hello
base32_decode-base32_encode_example = base32_decode-base32_encode hello hello_bytes

verify_totp_token-base32_encode_example :
    (verify_totp_token checksum 95 (base32_encode hello) "197379" ≡ true) ↔ (
      (step : ℕ) × (step ≤ 95 / 30 + 1)
      × (95 / 30 ≤ step + 1)
      × ("197379" ≡ one_time_password checksum hello step))
verify_totp_token-base32_encode_example =
    verify_totp_token-base32_encode checksum
      (λ key text. fill-All 20 (sum_of (key ++ text) % 256) (omega arith)) hello 95 "197379"
      hello_bytes (omega arith) (omega arith)

abbrev out : Outside
out = record {
  hash = λ p. p;
  random_bytes = hello;
  fresh_id = "m3";
  now = 95_000;
  hmac_sha1 = checksum;
}

abbrev ada : Merchant
ada = record {
  id = "m1";
  email = "ada@example.org";
  password_hash = "h1";
  business_name = "Ada";
  status = MerchantStatus.active;
  role = MerchantRole.superadmin;
  api_key_hash = none;
  sandbox_mode = false;
  totp_secret = none;
  totp_enabled = false;
  allowed_ips = none;
  deleted_at = none;
}

abbrev bob : Merchant
bob = record ada { id = "m2"; email = "bob@example.org"; role = MerchantRole.admin }

abbrev two : Store
two = record {
  merchants = ada ∷ bob ∷ [];
  payments = record { id = "p1"; merchant_id = "m2"; deleted_at = none } ∷ [];
}

-- The superadministrator tries to delete for good, the administrator to create and to delete.
abbrev attempts : List (Outside × Option MerchantRole × Request)
attempts =
    (out, some MerchantRole.superadmin, Request.delete_entity "merchants" "m2" "true")
    ∷ (out, some MerchantRole.superadmin, Request.delete_user "m2")
    ∷ (out, some MerchantRole.admin, Request.post_user "eve@example.org" "secret" "Eve")
    ∷ (out, some MerchantRole.admin, Request.delete_entity "merchants" "m1" "true")
    ∷ (out, some MerchantRole.admin, Request.delete_entity "merchants" "m1" "false")
    ∷ []

two_differ : (let id : String = "m2" in id ≢ "m1")
two_differ e = absurd (ground (arith, (eq_iff "m2" "m1").1 e))

serve_all-account_example :
    let t = serve_all attempts two in
    (map account t.merchants ≡ map account two.merchants)
    × Refused t (
        serve out
          (some MerchantRole.superadmin)
          (Request.post_user "eve@example.org" "secret" "Eve")
          t)
    × Refused t (serve out (some MerchantRole.superadmin) (Request.delete_user "m2") t)
    × Refused t
        (serve out (some MerchantRole.superadmin) (Request.delete_entity "merchants" "m2" "true") t)
serve_all-account_example =
    serve_all-account attempts two out (some MerchantRole.superadmin) "eve@example.org" "secret"
      "Eve" "m2" "merchants" ((two_differ, tt), (tt, tt))

-- The administrator can still delete the superadministrator softly.
superadmin_gone : find_merchant "m1" (serve_all attempts two).merchants ≡ none
unfolding serve_all find_merchant delete_record
superadmin_gone = refl

-- All payments of the merchant go, though it was never in sandbox mode.
payments_gone :
    (serve_all ((out, some MerchantRole.admin, Request.post_sandbox_reset "m2") ∷ []) two).payments
    ≡ []
unfolding serve_all reset_sandbox_data find_merchant
payments_gone = refl

abbrev some_ids : List String
some_ids = "m2" ∷ "m9" ∷ "m2" ∷ []

-- The fees as a text: their number, then each with its type and rate.
write_fees : List FeeConfig → String
write_fees [] = ""
write_fees (c ∷ cs) = put c.fee_type (put c.base_fee_rate (write_fees cs))

add_fee : (fee_type : String) → Option (List FeeConfig) → String → Option (List FeeConfig)
add_fee t none rate = none
add_fee t (some cs) rate = some (record { fee_type = t; base_fee_rate = rate } ∷ cs)

read_rate :
    (String → Option (List FeeConfig)) → String → Option (String × String) → Option (List FeeConfig)
read_rate later t none = none
read_rate later t (some (rate, rest)) = add_fee t (later rest) rate

read_fee : (String → Option (List FeeConfig)) → Option (String × String) → Option (List FeeConfig)
read_fee later none = none
read_fee later (some (t, rest)) = read_rate later t (read rest)

read_fees : ℕ → String → Option (List FeeConfig)
unfolding read
read_fees zero s = some []
read_fees (suc n) s = read_fee (read_fees n) (read s)

fees_back : (cs : List FeeConfig) → read_fees (length cs) (write_fees cs) ≡ some cs
unfolding read_fees write_fees read_fee read_rate add_fee
fees_back [] = refl
fees_back (c ∷ cs) =
    ap (read_fee (read_fees (length cs)))
      (read-put c.fee_type (put c.base_fee_rate (write_fees cs)))
    ∙ ap (read_rate (read_fees (length cs)) c.fee_type) (read-put c.base_fee_rate (write_fees cs))
    ∙ ap (λ o. add_fee c.fee_type o c.base_fee_rate) (fees_back cs)

fees_text : List FeeConfig → String
fees_text cs = put (marks (length cs)) (write_fees cs)

counted_fees : Option (String × String) → Option (List FeeConfig)
counted_fees none = none
counted_fees (some (n, rest)) = read_fees (length_of n) rest

fees_of : String → Option (List FeeConfig)
fees_of s = counted_fees (read s)

fees_of-fees_text : (cs : List FeeConfig) → fees_of (fees_text cs) ≡ some cs
unfolding fees_of fees_text counted_fees
fees_of-fees_text cs =
    ap counted_fees (read-put (marks (length cs)) (write_fees cs))
    ∙ ap (λ n. read_fees n (write_fees cs)) (length_of-marks (length cs))
    ∙ fees_back cs

abbrev fees_codec : Codec (List FeeConfig)
fees_codec = plain_codec fees_text fees_of

abbrev one_fee : FeeStore Table
one_fee = record {
  cache = empty_table;
  configs = record { fee_type = "transfer"; base_fee_rate = "0.015" } ∷ [];
  history = [];
}

abbrev fee_requests : List (FeeRequest table_redis fees_codec "test:cache:" (λ cs. cs))
fee_requests = FeeRequest.read ∷ FeeRequest.update "transfer" "0.02" none none ∷ []

nothing_cached : IsFresh table_redis fees_codec "test:cache:" (λ cs. cs) one_fee
unfolding get
nothing_cached = inl refl

get_global_fees-serve_fees_example :
    (get_global_fees table_redis fees_codec "test:cache:"
      (λ cs. cs)
      (serve_fees table_redis fees_codec "test:cache:" (λ cs. cs) fee_requests one_fee)).0
    ≡ (serve_fees table_redis fees_codec "test:cache:" (λ cs. cs) fee_requests one_fee).configs
get_global_fees-serve_fees_example =
    get_global_fees-serve_fees table_redis fees_codec "test:cache:" (λ cs. cs) table_redis_laws
      (plain_codec_laws fees_text fees_of fees_of-fees_text) fee_requests one_fee nothing_cached
