-- ===== src/Prelude/Texts.antt =====
-- Numbers and texts the way JavaScript prints and cuts them, as far as the services do.
use Prim.Native.Nat.{ℕ, zero, suc, ◌+◌, ◌-◌, ◌*◌, ◌/◌, ◌%◌, ◌≤◌, ◌<◌}
use mathlib.Core.Path.{◌≡◌, refl, ap}
use mathlib.Core.Logic.{◌≢◌, ◌⊎◌, inl, inr}
use native.Mathlib.Omega.{arith}
use native.Mathlib.Nat.{div-add-mod', mod-lt, div-lt_iff_lt-mul}
use Prim.Native.Char.{Char, code}
use Prim.Native.String
use Prim.Native.String.{String}
use mathlib.Core.Bool.{Bool, true, false, ◌&&◌, ◌||◌}
use mathlib.Core.Option.{Option, none, some}
use text.Mathlib.Text as Text
use dabdub.Prelude.Tests.{ltb, ◌==◌, if◌then◌else◌}

-- A signed number, under the library's names.
pub data ℤ : Type 0 where
  pos : ℕ → ℤ
  negsuc : ℕ → ℤ

-- `a / b` to the nearest whole number, a half goes up, as in `toFixed`.
abbrev pub round_div : ℕ → ℕ → ℕ
round_div a b = (2 * a + b) / (2 * b)

abbrev digit : ℕ → String
digit n = String.slice "0123456789" n (n + 1)

-- The last `k` decimal digits of a number, with leading zeros.
abbrev pub pad_digits : (k : ℕ) → ℕ → String
pad_digits zero n = ""
pad_digits (suc k) n = String.◌++◌ (pad_digits k (n / 10)) (digit (n % 10))

abbrev decimal_of : (fuel : ℕ) → ℕ → String
decimal_of zero n = ""
decimal_of (suc fuel) n =
    let more = decimal_of fuel (n / 10) in
    if ltb n 10 then digit n else String.◌++◌ more (digit (n % 10))

-- `${n}` of a whole number below 10 ^ 16, which has no more digits than that.
abbrev pub decimal : ℕ → String
decimal = decimal_of 16

-- `x.toFixed(7)` of a number of ten-millionths.
abbrev pub fixed_7 : ℕ → String
fixed_7 n = String.◌++◌ (decimal (n / 10_000_000)) (String.◌++◌ "." (pad_digits 7 n))

abbrev pub is_space : Char → Bool
is_space c =
    code c == 32
    || (ltb 8 (code c) && ltb (code c) 14)
    || code c == 160
    || code c == 5760
    || (ltb 8191 (code c) && ltb (code c) 8203)
    || code c == 8232
    || code c == 8233
    || code c == 8239
    || code c == 8287
    || code c == 12288
    || code c == 65279

-- `s.trim().length === 0`: every character is white space or ends a line.
abbrev pub is_blank : String → Bool
is_blank String.[] = true
is_blank (String.◌∷◌ c s) = is_space c && is_blank s

abbrev segment_from : String → String → String
segment_from last String.[] = last
segment_from last (String.◌∷◌ c s) = if code c == 45 then segment_from s s else segment_from last s

-- `s.split('-').pop()`: what follows the last dash.
abbrev pub last_segment : String → String
last_segment s = segment_from s s

-- Rounding moves the product by at most half the divisor.
pub round_div_close :
    (a b : ℕ)
    → 0 < b
    → (2 * (round_div a b * b) ≤ 2 * a + b) × (2 * a ≤ 2 * (round_div a b * b) + b)
round_div_close a b some_b =
    let q = round_div a b in
    let split : q * (2 * b) + (2 * a + b) % (2 * b) ≡ 2 * a + b = div-add-mod' _ _ in
    let rest : (2 * a + b) % (2 * b) < 2 * b = mod-lt _ (omega (arith, some_b)) in
    let doubled : q * (2 * b) ≡ 2 * (q * b) = omega arith in
    (omega (arith, split, rest, doubled), omega (arith, split, rest, doubled))

-- A share of at most the whole, rounded, is at most the whole.
pub round_div_le : (a b x : ℕ) → 0 < b → a ≤ x * b → round_div a b ≤ x
round_div_le a b x some_b small =
    let spread : (x + 1) * (2 * b) ≡ 2 * (x * b) + 2 * b = omega arith in
    let below : round_div a b < x + 1 =
      (div-lt_iff_lt-mul {k = 2 * b} {x = 2 * a + b} {y = x + 1} (omega (arith, some_b))).1
        (omega (arith, small, some_b, spread)) in
    omega (arith, below)

-- A text that passes for true in a condition: there, and not empty.
abbrev pub truthy : Option String → Option String
truthy none = none
truthy (some String.[]) = none
truthy (some (String.◌∷◌ c s)) = some (String.◌∷◌ c s)

pub truthy-cases :
    (s : String) → ((truthy (some s) ≡ none) × (s ≡ "")) ⊎ ((truthy (some s) ≡ some s) × (s ≢ ""))
truthy-cases String.[] = inl (refl, refl)
truthy-cases (String.◌∷◌ c s) = inr (refl, λ empty. differ (ap (λ t. truthy (some t)) empty))
  where
    differ : {t : String} → some t ≢ none
    differ e = ground arith

-- `x === y`, where `x` may be missing.
abbrev pub is_text : Option String → String → Bool
is_text none t = false
is_text (some s) t = Text.◌==◌ s t

-- `s.toLowerCase()` on the Latin letters; no other character has one of them for its lower case but
-- the Kelvin sign.
abbrev pub to_lower : String → String
to_lower String.[] = ""
to_lower (String.◌∷◌ c s) =
    let rest = to_lower s in
    if ltb 64 (code c) && ltb (code c) 91
    then String.◌++◌ (String.slice "abcdefghijklmnopqrstuvwxyz" (code c - 65) (code c - 64)) rest
    else String.◌∷◌ c rest
