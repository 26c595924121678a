-- ===== src/Security/Bits.antt =====
-- `&` with a mask of high bits, and `|` of a multiple of a power with all smaller bits.
use Prim.Native.Nat.{digits, bit_and, bit_or, bit_and-bitwise, bit_or-bitwise, min, max}
use native.Mathlib.Nat.{pow-suc, one-le-pow}
use dabdub.Prelude.{◌≡◌, refl, ap, ◌∙◌, ℕ, zero, suc, ◌+◌, ◌-◌, ◌*◌, ◌/◌, ◌%◌, ◌^◌, ◌≤◌, ◌<◌, arith}

-- `m` ones above `k` zeros.
abbrev pub high : (m k : ℕ) → ℕ
high m k = (2 ^ m - 1) * 2 ^ k

ands : (fuel a b : ℕ) → ℕ
ands fuel a b = digits (λ _. 0) min fuel a b

and_zero : (fuel a : ℕ) → a ≤ fuel → ands fuel a 0 ≡ 0
unfolding ands
and_zero zero zero fits = refl
and_zero zero (suc a) fits = absurd (omega arith)
and_zero (suc n) zero fits = refl
and_zero (suc n) (suc a) fits = omega (arith, and_zero n (suc a / 2) (omega arith))

double : (m : ℕ) → 2 ^ suc m ≡ 2 * 2 ^ m
double m = omega (arith, pow-suc 2 m)

half_ones : (m : ℕ) → (2 ^ suc m - 1) / 2 ≡ 2 ^ m - 1
half_ones m = omega (arith, double m, one-le-pow m 2)

odd_ones : (m : ℕ) → (2 ^ suc m - 1) % 2 ≡ 1
odd_ones m = omega (arith, double m, one-le-pow m 2)

and_ones : (m fuel a : ℕ) → a ≤ fuel → a < 2 ^ m → ands fuel a (2 ^ m - 1) ≡ a
unfolding ands
and_ones zero fuel a fits small = ground (arith, and_zero fuel a fits)
and_ones (suc m) zero zero fits small = refl
and_ones (suc m) zero (suc a) fits small = absurd (omega arith)
and_ones (suc m) (suc n) zero fits small = refl
and_ones (suc m) (suc n) (suc a) fits small =
    let rest = and_ones m n (suc a / 2) (omega (arith, fits)) (omega (arith, small, double m)) in
    rw (half_ones m) (rw (odd_ones m) (rw rest (omega arith)))

double_scaled : (k q : ℕ) → q * 2 ^ suc k ≡ 2 * (q * 2 ^ k)
double_scaled k q = omega (arith, ap (λ (t : ℕ). q * t) (double k))

module _ (m : ℕ) where
  half_high : (k : ℕ) → high m (suc k) / 2 ≡ high m k
  half_high k = omega (arith, double_scaled k (2 ^ m - 1))

  even_high : (k : ℕ) → high m (suc k) % 2 ≡ 0
  even_high k = omega (arith, double_scaled k (2 ^ m - 1))

  -- The mask keeps the high part of a number.
  and_high :
      (k fuel a q r : ℕ)
      → a ≤ fuel
      → a ≡ q * 2 ^ k + r
      → r < 2 ^ k
      → q < 2 ^ m
      → ands fuel a (high m k) ≡ q * 2 ^ k
  unfolding ands
  and_high zero fuel a q r fits parts low small =
      let same : a ≡ q = omega (arith, parts, low) in
      let ones : high m 0 ≡ 2 ^ m - 1 = omega arith in
      rw ones (and_ones m fuel a fits (omega (arith, same, small)) ∙ omega (arith, same))
  and_high (suc k) zero a q r fits parts low small = omega (arith, fits, parts)
  and_high (suc k) (suc n) zero q r fits parts low small = omega (arith, parts)
  and_high (suc k) (suc n) (suc a) q r fits parts low small =
      let rest =
        and_high k n (suc a / 2) q (r / 2) (omega (arith, fits))
          (omega (arith, parts, double_scaled k q)) (omega (arith, low, double k)) small in
      rw (half_high k) (rw (even_high k) (rw rest (omega (arith, double_scaled k q))))

ors : (fuel a b : ℕ) → ℕ
ors fuel a b = digits (λ b. b) max fuel a b

or_zero : (fuel a : ℕ) → a ≤ fuel → ors fuel a 0 ≡ a
unfolding ors
or_zero zero zero fits = refl
or_zero zero (suc a) fits = absurd (omega arith)
or_zero (suc n) zero fits = refl
or_zero (suc n) (suc a) fits = omega (arith, or_zero n (suc a / 2) (omega arith))

-- Smaller bits are added to a multiple of a power.
or_low : (k fuel a q b : ℕ) → a ≤ fuel → a ≡ q * 2 ^ k → b < 2 ^ k → ors fuel a b ≡ a + b
unfolding ors
or_low zero fuel a q b fits parts low =
    let nothing : b ≡ 0 = omega (arith, low) in rw nothing (or_zero fuel a fits ∙ omega arith)
or_low (suc k) zero zero q b fits parts low = omega arith
or_low (suc k) zero (suc a) q b fits parts low = absurd (omega arith)
or_low (suc k) (suc n) zero q b fits parts low = omega arith
or_low (suc k) (suc n) (suc a) q b fits parts low =
    let twice = double_scaled k q in
    let even : suc a % 2 ≡ 0 = omega (arith, parts, twice) in
    let rest =
      or_low k n (suc a / 2) q (b / 2) (omega (arith, fits)) (omega (arith, parts, twice))
        (omega (arith, low, double k)) in
    rw rest (rw even (omega (arith, even)))

pub bit_and-high :
    (p s a q r : ℕ) → a ≡ q * 2 ^ s + r → r < 2 ^ s → q < 2 ^ p → bit_and a (high p s) ≡ q * 2 ^ s
unfolding ands
bit_and-high p s a q r parts low small =
    bit_and-bitwise a (high p s) ∙ and_high p s a a q r (omega arith) parts low small

pub bit_or-low : (k q b : ℕ) → b < 2 ^ k → bit_or (q * 2 ^ k) b ≡ q * 2 ^ k + b
unfolding ors
bit_or-low k q b low =
    bit_or-bitwise (q * 2 ^ k) b ∙ or_low k (q * 2 ^ k) (q * 2 ^ k) q b (omega arith) refl low
