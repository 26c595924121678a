-- ===== src/Security/Networks.antt =====
-- The masks of both guards, on numbers.
use Prim.Native.Nat.{bit_and, bit_or}
use native.Mathlib.Nat.{div-add-mod', mod-lt, one-le-pow, div-lt_iff_lt-mul, mul-le-mul_left}
use dabdub.Prelude.{
  ◌≡◌, refl, ap, sym, ◌∙◌, ℕ, zero, suc, ◌+◌, ◌-◌, ◌*◌, ◌/◌, ◌%◌, ◌^◌, ◌≤◌, ◌<◌, Bool, true, ◌&&◌,
  some, ◌==◌, leb, ==_iff, both_true, ◌⊎◌, inl, inr, arith, pos,
}
use dabdub.Security.Guards.{complement, mask_of}
use dabdub.Security.Metrics.{mask, network_of, contains}
use dabdub.Security.Bits.{high, bit_and-high, bit_or-low}

-- The masks of both guards, and the addresses in a network, for a prefix.
abbrev agree : ℕ → Bool
agree n =
    mask_of (some (pos n)) == high n (32 - n)
    && mask n == high n (32 - n)
    && complement (mask n) == 2 ^ (32 - n) - 1
    && 2 ^ n * 2 ^ (32 - n) == 2 ^ 32

abbrev agree_below : ℕ → Bool
agree_below zero = true
agree_below (suc n) = agree (suc n) && agree_below n

every_prefix : agree_below 32 ≡ true
every_prefix = refl

agree_below-agree : (m n : ℕ) → agree_below m ≡ true → 1 ≤ n → n ≤ m → agree n ≡ true
agree_below-agree zero n every some_bits few = absurd (omega arith)
agree_below-agree (suc m) n every some_bits few =
    let (here, below) = both_true (agree (suc m)) (agree_below m) every in
    elim (le_cases n m few) [
      | inl last ↦ ap agree last ∙ here
      | inr less ↦ agree_below-agree m n below some_bits less
    ]
  where
    le_cases : (n m : ℕ) → n ≤ suc m → (n ≡ suc m) ⊎ (n ≤ m)
    le_cases n m le = omega arith

-- What the table says of a prefix.
agree_facts :
    (n : ℕ)
    → agree n ≡ true
    → (mask_of (some (pos n)) ≡ high n (32 - n))
      × (mask n ≡ high n (32 - n))
      × (complement (mask n) ≡ 2 ^ (32 - n) - 1)
      × (2 ^ n * 2 ^ (32 - n) ≡ 2 ^ 32)
agree_facts n table =
    let h = high n (32 - n) in
    let last = 2 ^ n * 2 ^ (32 - n) == 2 ^ 32 in
    let low = complement (mask n) == 2 ^ (32 - n) - 1 in
    let first = mask_of (some (pos n)) == h in
    let second = mask n == h in
    let (abc, d) = both_true (first && second && low) last table in
    let (ab, c) = both_true (first && second) low abc in
    let (a, b) = both_true first second ab in
    (
      (==_iff (mask_of (some (pos n))) h).0 a,
      (==_iff (mask n) h).0 b,
      (==_iff (complement (mask n)) (2 ^ (32 - n) - 1)).0 c,
      (==_iff (2 ^ n * 2 ^ (32 - n)) (2 ^ 32)).0 d,
    )

-- Numbers in one block of a size are those between its ends.
next_block : (t q p : ℕ) → q < p → q * t + t ≤ p * t
next_block t q p less =
    let more : t * (q + 1) ≤ t * p = mul-le-mul_left t (omega (arith, less)) in omega (arith, more)

trichotomy : (q p : ℕ) → (q < p) ⊎ ((q ≡ p) ⊎ (p < q))
trichotomy q p = omega arith

block :
    (t q p r : ℕ)
    → r < t
    → (q * t == p * t) ≡ (leb (p * t) (q * t + r) && leb (q * t + r) (p * t + (t - 1)))
block t q p r low = elim (trichotomy q p) [
  | inl less ↦ let apart = next_block t q p less in ground arith
  | inr (inl same) ↦ let alike = ap (λ (n : ℕ). n * t) same in ground arith
  | inr (inr more) ↦ let apart = next_block t p q more in ground arith
]

-- A number below 2 ^ 32 in the blocks of a prefix.
masked :
    (n x : ℕ)
    → agree n ≡ true
    → x < 2 ^ 32
    → bit_and x (high n (32 - n)) ≡ x / 2 ^ (32 - n) * 2 ^ (32 - n)
masked n x table small =
    let s = 32 - n in
    let (wide, same, rest, cut) = agree_facts n table in
    let size : 0 < 2 ^ s = omega (arith, one-le-pow s 2) in
    let parts = div-add-mod' x (2 ^ s) in
    bit_and-high n s x (x / 2 ^ s) (x % 2 ^ s) (sym parts) (mod-lt x size)
      ((div-lt_iff_lt-mul size).1 (omega (arith, small, cut)))

-- On numbers: the guards agree on each network of a prefix from 1 to 32.
pub same_network :
    (n x y : ℕ)
    → 1 ≤ n
    → n ≤ 32
    → x < 2 ^ 32
    → y < 2 ^ 32
    → (bit_and x (mask_of (some (pos n))) == bit_and y (mask_of (some (pos n))))
      ≡ contains (network_of y n) x
same_network n x y some_bits few small small' =
    let s = 32 - n in
    let table = agree_below-agree 32 n every_prefix some_bits few in
    let (wide, same, rest, cut) = agree_facts n table in
    let q = x / 2 ^ s in
    let p = y / 2 ^ s in
    let size : 0 < 2 ^ s = omega (arith, one-le-pow s 2) in
    let left : (bit_and x (mask_of (some (pos n))) == bit_and y (mask_of (some (pos n))))
        ≡ (q * 2 ^ s == p * 2 ^ s) =
      ap (λ m. bit_and x m == bit_and y m) wide
      ∙ ap (λ v. v == bit_and y (high n s)) (masked n x table small)
      ∙ ap (λ v. q * 2 ^ s == v) (masked n y table small') in
    let first : bit_and y (mask n) ≡ p * 2 ^ s = ap (bit_and y) same ∙ masked n y table small' in
    let last : bit_or (bit_and y (mask n)) (complement (mask n)) ≡ p * 2 ^ s + (2 ^ s - 1) =
      ap (λ v. bit_or v (complement (mask n))) first
      ∙ ap (bit_or (p * 2 ^ s)) rest
      ∙ bit_or-low s p (2 ^ s - 1) (omega (arith, size)) in
    let whole : q * 2 ^ s + x % 2 ^ s ≡ x = div-add-mod' x (2 ^ s) in
    left
    ∙ block (2 ^ s) q p (x % 2 ^ s) (mod-lt x size)
    ∙ ap (λ v. leb (p * 2 ^ s) v && leb v (p * 2 ^ s + (2 ^ s - 1))) whole
    ∙ ap (λ v. leb v x && leb x (p * 2 ^ s + (2 ^ s - 1))) (sym first)
    ∙ ap (λ v. leb (bit_and y (mask n)) x && leb x v) (sym last)
