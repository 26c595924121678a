-- ===== src/Admin/Totp/Steps.antt =====
-- Which tokens are valid, in terms of the key that was set up and of RFC 4226's one-time passwords.
use Prim.Native.Nat.{bit_or}
use dabdub.Prelude.{
  ℕ, zero, suc, ◌+◌, ◌-◌, ◌*◌, ◌/◌, ◌%◌, ◌^◌, ◌≤◌, ◌<◌, ltb, Bool, true, false, ◌||◌, String,
  str_eq, eq_iff, pad_digits, List, [], ◌∷◌, if◌then◌else◌, ◌≡◌, refl, sym, ap, ◌∙◌, subst, ◌↔◌,
  ◌⊎◌, inl, inr, arith, All, Bool-cases,
}
use dabdub.Security.Bits.{bit_or-low}
use dabdub.Admin.Base32.{base32_encode}
use dabdub.Admin.Base32.RoundTrip.{IsByte, base32_decode-base32_encode}
use dabdub.Admin.Totp.{
  byte_at, counter_bytes, truncate, totp_code, counter_at, counter_before, verify_totp_token,
}

byte_at_small : (xs : List ℕ) (i : ℕ) → All IsByte xs → byte_at xs i < 256
byte_at_small [] i bytes = omega arith
byte_at_small (x ∷ xs) zero bytes = bytes.0
byte_at_small (x ∷ xs) (suc i) bytes = byte_at_small xs i bytes.1

-- The four bytes from an offset on, as a number of 31 bits.
abbrev pub number_at : List ℕ → ℕ → ℕ
number_at xs o =
    ((byte_at xs o % 128 * 256 + byte_at xs (o + 1)) * 256 + byte_at xs (o + 2)) * 256
    + byte_at xs (o + 3)

or_bytes :
    (a b c d : ℕ)
    → b < 256
    → c < 256
    → d < 256
    → bit_or (bit_or (bit_or (a * 2 ^ 24) (b * 2 ^ 16)) (c * 2 ^ 8)) d
      ≡ ((a * 256 + b) * 256 + c) * 256 + d
or_bytes a b c d pb pc pd =
    let one : bit_or (a * 2 ^ 24) (b * 2 ^ 16) ≡ (a * 256 + b) * 2 ^ 16 =
      bit_or-low 24 a (b * 2 ^ 16) (omega arith) ∙ omega arith in
    let two : bit_or ((a * 256 + b) * 2 ^ 16) (c * 2 ^ 8) ≡ ((a * 256 + b) * 256 + c) * 2 ^ 8 =
      bit_or-low 16 (a * 256 + b) (c * 2 ^ 8) (omega arith) ∙ omega arith in
    let three : bit_or (((a * 256 + b) * 256 + c) * 2 ^ 8) d ≡ ((a * 256 + b) * 256 + c) * 256 + d =
      bit_or-low 8 ((a * 256 + b) * 256 + c) d pd ∙ omega arith in
    ap (λ x. bit_or (bit_or x (c * 2 ^ 8)) d) one ∙ ap (λ x. bit_or x d) two ∙ three

truncate_lem :
    (digest : List ℕ)
    → All IsByte digest
    → truncate digest ≡ number_at digest (byte_at digest 19 % 16)
unfolding truncate
truncate_lem digest bytes =
    let o = byte_at digest 19 % 16 in
    or_bytes (byte_at digest o % 128) (byte_at digest (o + 1)) (byte_at digest (o + 2))
      (byte_at digest (o + 3)) (byte_at_small digest (o + 1) bytes)
      (byte_at_small digest (o + 2) bytes) (byte_at_small digest (o + 3) bytes)

counter_before_lem :
    (now : ℕ) → 30 ≤ now → now / 30 + 1 < 2 ^ 32 → counter_before now ≡ now / 30 - 1
counter_before_lem now late fits = if_no (ltb now 30) (ground arith)
  where
    if_no :
        (c : Bool) → c ≡ false → (if c then 2 ^ 32 - 1 else counter_at (now - 30)) ≡ now / 30 - 1
    if_no true e = absurd (ground arith)
    if_no false e = omega (arith, late, fits)

-- One of three steps around another.
abbrev Around : (middle : ℕ) → (ℕ → Type 0) → Type 0
Around middle P = (step : ℕ) × (step ≤ middle + 1) × (middle ≤ step + 1) × P step

three_ways :
    (a b c : Bool) (middle : ℕ) (P : ℕ → Type 0)
    → 1 ≤ middle
    → (a ≡ true) ↔ P (middle - 1)
    → (b ≡ true) ↔ P middle
    → (c ≡ true) ↔ P (middle + 1)
    → (a || b || c ≡ true) ↔ Around middle P
three_ways a b c middle P early pa pb pc = (there a b c pa.0 pb.0 pc.0, back)
  where
    around :
        (step : ℕ)
        → step ≤ middle + 1
        → middle ≤ step + 1
        → (middle - 1 ≡ step) ⊎ ((middle ≡ step) ⊎ (middle + 1 ≡ step))
    around step le ge = ground arith

    one : a ≡ true → a || b || c ≡ true
    one e = ground arith

    two : b ≡ true → a || b || c ≡ true
    two e = ground (arith, Bool-cases a)

    three : c ≡ true → a || b || c ≡ true
    three e = ground (arith, Bool-cases a, Bool-cases b)

    back : Around middle P → a || b || c ≡ true
    back (step, le, ge, p) = elim (around step le ge) [
      | inl e ↦ one (pa.1 (subst P (sym e) p))
      | inr (inl e) ↦ two (pb.1 (subst P (sym e) p))
      | inr (inr e) ↦ three (pc.1 (subst P (sym e) p))
    ]

    there :
        (a b c : Bool)
        → (a ≡ true → P (middle - 1))
        → (b ≡ true → P middle)
        → (c ≡ true → P (middle + 1))
        → a || b || c ≡ true
        → Around middle P
    there true b c pa pb pc e = (middle - 1, omega arith, omega (arith, early), pa refl)
    there false true c pa pb pc e = (middle, omega arith, omega arith, pb refl)
    there false false true pa pb pc e = (middle + 1, omega arith, omega arith, pc refl)
    there false false false pa pb pc e = absurd (ground arith)

module _ (hmac_sha1 : (key text : List ℕ) → List ℕ) where
  -- The one-time password of RFC 4226 with six digits, on the bytes of the key.
  unfoldable pub one_time_password : (key : List ℕ) (step : ℕ) → String
  one_time_password key step =
      let digest = hmac_sha1 key (counter_bytes step) in
      pad_digits 6 (number_at digest (byte_at digest 19 % 16) % 1_000_000)

  module _ (digest_bytes : (key text : List ℕ) → All IsByte (hmac_sha1 key text)) where
    totp_code-base32_encode :
        (key : List ℕ) (step : ℕ)
        → All IsByte key
        → totp_code hmac_sha1 (base32_encode key) step ≡ one_time_password key step
    unfolding totp_code one_time_password
    totp_code-base32_encode key step bytes =
        ap (λ k. pad_digits 6 (truncate (hmac_sha1 k (counter_bytes step)) % 1_000_000))
          (base32_decode-base32_encode key bytes)
        ∙ ap (λ n. pad_digits 6 (n % 1_000_000))
            (truncate_lem (hmac_sha1 key (counter_bytes step))
              (digest_bytes key (counter_bytes step)))

    -- A counter's code is the token exactly if the counter's password is.
    code-token :
        (key : List ℕ) (step counter : ℕ) (token : String)
        → All IsByte key
        → counter ≡ step
        → (str_eq (totp_code hmac_sha1 (base32_encode key) counter) token ≡ true)
          ↔ (token ≡ one_time_password key step)
    code-token key step counter token bytes same =
        let code =
          totp_code-base32_encode key counter bytes ∙ ap (λ n. one_time_password key n) same in
        (
          λ e. sym ((eq_iff (totp_code hmac_sha1 (base32_encode key) counter) token).0 e) ∙ code,
          λ e. (eq_iff (totp_code hmac_sha1 (base32_encode key) counter) token).1 (code ∙ sym e),
        )

    -- With the secret that encodes a key, a token is valid exactly if it is the RFC 4226 password of
    -- that key for the current step of 30 seconds, the one before or the one after; the time is at
    -- least 30 and its steps fit in 32 bits.
    pub verify_totp_token-base32_encode :
        (key : List ℕ) (now : ℕ) (token : String)
        → All IsByte key
        → 30 ≤ now
        → now / 30 + 1 < 2 ^ 32
        → (verify_totp_token hmac_sha1 now (base32_encode key) token ≡ true) ↔ (
            (step : ℕ) × (step ≤ now / 30 + 1)
            × (now / 30 ≤ step + 1)
            × (token ≡ one_time_password key step))
    unfolding verify_totp_token
    verify_totp_token-base32_encode key now token bytes late fits =
        three_ways (str_eq (totp_code hmac_sha1 (base32_encode key) (counter_before now)) token)
          (str_eq (totp_code hmac_sha1 (base32_encode key) (counter_at now)) token)
          (str_eq (totp_code hmac_sha1 (base32_encode key) (counter_at (now + 30))) token)
          (now / 30) (λ step. token ≡ one_time_password key step) (omega (arith, late))
          (code-token key (now / 30 - 1) (counter_before now) token bytes
            (counter_before_lem now late fits))
          (code-token key (now / 30) (counter_at now) token bytes (omega (arith, fits)))
          (code-token key (now / 30 + 1) (counter_at (now + 30)) token bytes (omega (arith, fits)))
