-- ===== src/Limits/Slippage.antt =====
-- `setMaxSlippage`, `getMaxSlippageBps` and `checkSlippage` of
-- backend/src/blockchain-wallet/slippage.service.ts. A rate is what `parseFloat` reads from its text,
-- as a whole number of some unit common to both rates, or none for NaN; the row of the configuration
-- is its value, if it is there.
use dabdub.Prelude.{
  ℕ, zero, suc, ◌+◌, ◌-◌, ◌*◌, ◌/◌, ◌≤◌, ◌<◌, ◌≡◌, ◌⊎◌, inl, inr, Bool, false, Option, none, some,
  if◌then◌else◌, ltb, ℤ, pos, negsuc, round_div, arith, refl, ap, Bool-cases, round_div_close,
}
use native.Mathlib.Nat.{mul-le-mul_right}
use dabdub.Platform.Actions.{Error, Result, ok, err}

abbrev pub default_max_slippage_bps : ℕ
default_max_slippage_bps = 100

abbrev pub get_max_slippage_bps : Option ℕ → ℕ
get_max_slippage_bps none = default_max_slippage_bps
get_max_slippage_bps (some bps) = bps

abbrev pub bounds_error : Error
bounds_error = Error.bad_request "maxSlippageBps must be between 0 and 10000"

-- The row that is saved, whether it was there or not.
abbrev pub set_max_slippage : ℤ → Option ℕ → Result (Option ℕ)
set_max_slippage (negsuc n) row = err bounds_error
set_max_slippage (pos bps) row = if ltb 10_000 bps then err bounds_error else ok (some bps)

-- `Math.abs(a - b)`
abbrev pub distance : ℤ → ℤ → ℕ
distance (pos a) (pos b) = a - b + (b - a)
distance (pos a) (negsuc b) = a + b + 1
distance (negsuc a) (pos b) = a + b + 1
distance (negsuc a) (negsuc b) = a - b + (b - a)

abbrev pub negate : ℕ → ℤ
negate zero = pos zero
negate (suc n) = negsuc n

-- `Math.round(distance / expected * 10_000)`: a half goes up, so below zero it goes to zero.
abbrev pub slippage_bps : (expected actual : ℤ) → ℤ
slippage_bps (pos e) actual = pos (round_div (distance (pos e) actual * 10_000) e)
slippage_bps (negsuc e) actual =
    negate ((2 * (distance (negsuc e) actual * 10_000) + (e + 1) - 1) / (2 * (e + 1)))

abbrev pub exceeds : ℤ → ℕ → Bool
exceeds (pos bps) max = ltb max bps
exceeds (negsuc n) max = false

-- How a check ends: the swap goes on, or it is rejected, with the event for listeners, or the rates
-- are refused.
pub data Verdict : Type 0 where
  accepted : Verdict
  rejected : (max_slippage_bps : ℕ) → (actual_slippage_bps : ℤ) → Verdict
  invalid : Error → Verdict

abbrev pub expected_error : Error
expected_error = Error.bad_request "expectedRate must be a non-zero number"

abbrev pub check_rates : ℤ → ℤ → (max_bps : ℕ) → Verdict
check_rates expected actual max =
    let bps = slippage_bps expected actual in if exceeds bps max then rejected max bps else accepted

unfoldable pub check_slippage : (expected actual : Option ℤ) → (row : Option ℕ) → Verdict
check_slippage none actual row = invalid expected_error
check_slippage (some (pos zero)) actual row = invalid expected_error
check_slippage (some e) none row = invalid (Error.bad_request "actualRate must be a valid number")
check_slippage (some e) (some a) row = check_rates e a (get_max_slippage_bps row)

-- At a positive expected rate, a swap that is accepted deviates from it by at most the maximum and a
-- half of a basis point, and one that is not accepted by at least that.
check_slippage_bounds :
    (e : ℕ) (a : ℤ) (row : Option ℕ)
    → 0 < e
    → let max = get_max_slippage_bps row in
      let d = distance (pos e) a in
      ((check_slippage (some (pos e)) (some a) row ≡ accepted)
        × (2 * (d * 10_000) ≤ 2 * (max * e) + e))
      ⊎ (((bps : ℕ) × (max < bps)
            × (check_slippage (some (pos e)) (some a) row ≡ rejected max (pos bps)))
          × (2 * (max * e) + e ≤ 2 * (d * 10_000)))
unfolding check_slippage
check_slippage_bounds zero a row some_rate = absurd (omega (arith, some_rate))
check_slippage_bounds (suc e) a row some_rate =
    let max = get_max_slippage_bps row in
    let d = distance (pos (suc e)) a in
    let bps = round_div (d * 10_000) (suc e) in
    let close = round_div_close (d * 10_000) (suc e) some_rate in
    elim (Bool-cases (ltb max bps)) [
      | inl over ↦
          let more : (max + 1) * suc e ≤ bps * suc e = mul-le-mul_right (suc e) (ground arith) in
          let spread : (max + 1) * suc e ≡ max * suc e + suc e = omega arith in
          inr ((bps, ground arith, ground arith), omega (arith, more, spread, close.0))
      | inr within ↦
          let less : bps * suc e ≤ max * suc e = mul-le-mul_right (suc e) (ground arith) in
          inl (ground arith, omega (arith, less, close.1))
    ]

negate-exceeds : (k max : ℕ) → exceeds (negate k) max ≡ false
negate-exceeds zero max = ground arith
negate-exceeds (suc k) max = refl

-- At a negative expected rate every swap is accepted, whatever its actual rate.
negative_rate_accepted :
    (e : ℕ) (a : ℤ) (row : Option ℕ) → check_slippage (some (negsuc e)) (some a) row ≡ accepted
unfolding check_slippage
negative_rate_accepted e a row =
    ap (λ b. if b then rejected max bps else accepted) (negate-exceeds _ max)
  where
    max : ℕ
    max = get_max_slippage_bps row

    bps : ℤ
    bps = slippage_bps (negsuc e) a

-- A maximum is saved exactly if it lies between 0 and 10000, and is then the one that checks use.
set_max_slippage_then_get :
    (bps : ℤ) (row : Option ℕ)
    → ((n : ℕ) × (bps ≡ pos n)
        × (n ≤ 10_000)
        × (set_max_slippage bps row ≡ ok (some n))
        × (get_max_slippage_bps (some n) ≡ n))
      ⊎ (((n : ℕ) → bps ≡ pos n → 10_000 < n) × ((e : Error) × (set_max_slippage bps row ≡ err e)))
set_max_slippage_then_get (negsuc n) row = inr (λ k e. absurd (ground arith), (bounds_error, refl))
set_max_slippage_then_get (pos n) row = elim (Bool-cases (ltb 10_000 n)) [
  | inl big ↦ inr (λ k e. ground arith, (bounds_error, ground arith))
  | inr fine ↦ inl (n, refl, ground arith, ground arith, refl)
]
