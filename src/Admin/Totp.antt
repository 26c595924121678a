-- ===== src/Admin/Totp.antt =====
-- `totpCode` and `verifyTotpToken` of backend/src/admin/admin.service.ts. HMAC-SHA1 is Node's and a
-- parameter; times are whole seconds since 1970, and a time before that is the last counter of all.
pub mod Steps
use Prim.Native.Nat.{bit_or}
use dabdub.Prelude.{
  ℕ, zero, suc, ◌+◌, ◌-◌, ◌*◌, ◌/◌, ◌%◌, ◌^◌, ltb, Bool, true, false, ◌||◌, String, str_eq,
  pad_digits, List, [], ◌∷◌, if◌then◌else◌,
}
use dabdub.Admin.Base32.{base32_decode}

-- `bytes[i]`; out of range it is `undefined`, which counts as 0 in bit operations.
abbrev pub byte_at : List ℕ → ℕ → ℕ
byte_at [] i = 0
byte_at (x ∷ xs) zero = x
byte_at (x ∷ xs) (suc i) = byte_at xs i

-- The buffer of eight bytes: four zeros and the counter, the high byte first.
abbrev pub counter_bytes : ℕ → List ℕ
counter_bytes n =
    0 ∷ 0 ∷ 0 ∷ 0 ∷ n / 2 ^ 24 % 256 ∷ n / 2 ^ 16 % 256 ∷ n / 2 ^ 8 % 256 ∷ n % 256 ∷ []

-- `(h[o] & 0x7f) << 24 | h[o + 1] << 16 | h[o + 2] << 8 | h[o + 3]`, where `o` is the low half of
-- the digest's last byte. The results stay below 2 ^ 31, so that no sign appears.
unfoldable pub truncate : List ℕ → ℕ
truncate digest =
    let o = byte_at digest 19 % 16 in
    bit_or
      (bit_or (bit_or (byte_at digest o % 128 * 2 ^ 24) (byte_at digest (o + 1) * 2 ^ 16))
        (byte_at digest (o + 2) * 2 ^ 8))
      (byte_at digest (o + 3))

-- `Math.floor(time / 30) >>> 0`
abbrev pub counter_at : (time : ℕ) → ℕ
counter_at time = time / 30 % 2 ^ 32

-- The counter of 30 seconds before; `-1 >>> 0` where that is before 1970.
abbrev pub counter_before : (time : ℕ) → ℕ
counter_before time = if ltb time 30 then 2 ^ 32 - 1 else counter_at (time - 30)

module _ (hmac_sha1 : (key text : List ℕ) → List ℕ) where
  -- The code of a counter.
  unfoldable pub totp_code : (secret : String) (counter : ℕ) → String
  unfolding base32_decode truncate
  totp_code secret counter =
      pad_digits 6 (truncate (hmac_sha1 (base32_decode secret) (counter_bytes counter)) % 1_000_000)

  unfoldable pub verify_totp_token : (now : ℕ) (secret token : String) → Bool
  unfolding totp_code
  verify_totp_token now secret token =
      str_eq (totp_code secret (counter_before now)) token
      || str_eq (totp_code secret (counter_at now)) token
      || str_eq (totp_code secret (counter_at (now + 30))) token
