-- ===== src/Security/Laws.antt =====
-- The two guards on the same network.
use Prim.Native.Nat.{bit_and, bit_or}
use dabdub.Prelude.{
  ◌≡◌, ◌≢◌, refl, ap, sym, ◌∙◌, subst, ℕ, zero, suc, ◌+◌, ◌*◌, ◌/◌, ◌%◌, ◌^◌, ◌≤◌, ◌<◌, Bool, true,
  false, not, Option, none, some, String, List, [], ◌∷◌, ◌==◌, str_eq, ltb, arith, ℤ, pos, negsuc,
  if◌then◌else◌,
}
use mathlib.Core.Option.{some_inj}
use dabdub.Security.Addresses.{dot, slash, split, has_char, parse_int}
use dabdub.Security.Guards.{mask_of, add_octet, to_int_from, to_int, halves, ip_in_cidr}
use dabdub.Security.Metrics.{
  octet, octets_from, four_parts, prefix_of, ip_to_big_int, Network, network_of, parse_cidr,
  contains,
}
use dabdub.Security.Bits.{bit_or-low}
use dabdub.Security.Networks.{same_network}

-- The number that both guards read in an address of four parts.
abbrev room : List String → ℕ
room [] = 2 ^ 32
room (p ∷ ps) = room ps / 256

room_small : (ps : List String) → room ps ≤ 2 ^ 32
room_small [] = omega arith
room_small (p ∷ ps) = omega (arith, room_small ps)

octets_agree :
    (ps : List String) (acc x : ℕ)
    → acc < room ps
    → octets_from acc ps ≡ some x
    → (to_int_from acc ps ≡ x) × (x < 2 ^ 32)
octets_agree [] acc x small e = (some_inj.0 e, subst (λ v. v < 2 ^ 32) (some_inj.0 e) small)
octets_agree (p ∷ ps) acc x small e = go (parse_int p) (octets_agree ps) e
  where
    Step : Option ℤ → Option ℕ → Type 0
    Step o v =
        elim v as (λ _. Option ℕ) [ none ↦ none | some n ↦ octets_from (bit_or (acc * 256) n) ps ]
          ≡ some x
        → (to_int_from (add_octet acc o) ps ≡ x) × (x < 2 ^ 32)

    small_step :
        ((acc' x' : ℕ)
          → acc' < room ps
          → octets_from acc' ps ≡ some x'
          → (to_int_from acc' ps ≡ x') × (x' < 2 ^ 32))
        → (n : ℕ) (b : Bool) → ltb 255 n ≡ b
        → Step (some (pos n)) (if b then none else some n)
    small_step later n true big = λ bad. absurd (ground arith)
    small_step later n false fits = λ run.
        let byte : n < 256 = ground arith in
        let joined : bit_or (acc * 256) n ≡ acc * 256 + n = bit_or-low 8 acc n byte in
        let space : acc * 256 + n < room ps = omega (arith, small, byte) in
        let whole : (acc * 256 + n) % 2 ^ 32 ≡ acc * 256 + n =
          omega (arith, space, room_small ps) in
        let (value, below) =
          later (acc * 256 + n) x space (ap (λ v. octets_from v ps) (sym joined) ∙ run) in
        (ap (λ v. to_int_from v ps) whole ∙ value, below)

    go :
        (o : Option ℤ)
        → ((acc' x' : ℕ)
            → acc' < room ps
            → octets_from acc' ps ≡ some x'
            → (to_int_from acc' ps ≡ x') × (x' < 2 ^ 32))
        → Step o (octet o)
    go none later = λ bad. absurd (ground arith)
    go (some (negsuc n)) later = λ bad. absurd (ground arith)
    go (some (pos n)) later = small_step later n (ltb 255 n) refl

ip_to_big_int-to_int :
    (ip : String) (x : ℕ) → ip_to_big_int ip ≡ some x → (to_int ip ≡ x) × (x < 2 ^ 32)
unfolding ip_to_big_int to_int
ip_to_big_int-to_int ip x e = go (split dot ip) e
  where
    go :
        (parts : List String)
        → (if four_parts parts then octets_from 0 parts else none) ≡ some x
        → (to_int_from 0 parts ≡ x) × (x < 2 ^ 32)
    go (a ∷ b ∷ c ∷ d ∷ []) run = octets_agree (a ∷ b ∷ c ∷ d ∷ []) 0 x (omega arith) run
    go _ bad = absurd (ground arith)

module _ (ip cidr : String) where
  -- A network that the guard of the metrics accepts, with its prefix and its number.
  abbrev pub IsNetwork : Network → Type 0
  IsNetwork net =
      (n : ℕ) × (y : ℕ) × (parse_int (halves cidr).1 ≡ some (pos n))
      × (n ≤ 32)
      × (ip_to_big_int (halves cidr).0 ≡ some y)
      × (net ≡ network_of y n)

  parse_cidr-IsNetwork : (net : Network) → parse_cidr cidr ≡ some net → IsNetwork net
  unfolding parse_cidr
  parse_cidr-IsNetwork net e = prefixes (parse_int (halves cidr).1) refl e
    where
      addresses :
          (n : ℕ) (o : Option ℕ)
          → parse_int (halves cidr).1 ≡ some (pos n)
          → n ≤ 32
          → ip_to_big_int (halves cidr).0 ≡ o
          → elim o as (λ _. Option Network) [ none ↦ none | some y ↦ some (network_of y n) ]
            ≡ some net
          → IsNetwork net
      addresses n none bits few range bad = absurd (ground arith)
      addresses n (some y) bits few range run = (n, y, bits, few, range, sym (some_inj.0 run))

      bounded :
          (n : ℕ) (b : Bool)
          → ltb 32 n ≡ b
          → parse_int (halves cidr).1 ≡ some (pos n)
          → elim (if b then none else some n) as (λ _. Option Network) [
            | none ↦ none
            | some k ↦ elim (ip_to_big_int (halves cidr).0) as (λ _. Option Network) [
              | none ↦ none
              | some y ↦ some (network_of y k)
            ]
          ]
            ≡ some net
          → IsNetwork net
      bounded n true many bits bad = absurd (ground arith)
      bounded n false few bits run =
          addresses n (ip_to_big_int (halves cidr).0) bits (ground arith) refl run

      prefixes :
          (o : Option ℤ)
          → parse_int (halves cidr).1 ≡ o
          → elim (prefix_of o) as (λ _. Option Network) [
            | none ↦ none
            | some k ↦ elim (ip_to_big_int (halves cidr).0) as (λ _. Option Network) [
              | none ↦ none
              | some y ↦ some (network_of y k)
            ]
          ]
            ≡ some net
          → IsNetwork net
      prefixes none bits bad = absurd (ground arith)
      prefixes (some (negsuc n)) bits bad = absurd (ground arith)
      prefixes (some (pos n)) bits run = bounded n (ltb 32 n) refl bits run

  first_bit :
      (n : ℕ)
      → parse_int (halves cidr).1 ≡ some (pos n)
      → parse_int (halves cidr).1 ≢ some (pos 0)
      → 1 ≤ n
  first_bit zero bits some_bits = absurd (some_bits bits)
  first_bit (suc n) bits some_bits = omega arith

  -- For an address and a network that the guard of the metrics can read, both guards say the same of the
  -- address, if the prefix of the network is not 0.
  pub ip_in_cidr-contains :
      (net : Network) (x : ℕ)
      → has_char slash cidr ≡ true
      → parse_int (halves cidr).1 ≢ some (pos 0)
      → parse_cidr cidr ≡ some net
      → ip_to_big_int ip ≡ some x
      → ip_in_cidr ip cidr ≡ contains net x
  unfolding ip_in_cidr
  ip_in_cidr-contains net x network some_bits parsed address =
      let (n, y, bits, few, range, same) = parse_cidr-IsNetwork net parsed in
      let (left, small) = ip_to_big_int-to_int ip x address in
      let (right, small') = ip_to_big_int-to_int (halves cidr).0 y range in
      let masked_alike : Option ℤ → ℕ → ℕ → Bool =
        λ o a b. bit_and a (mask_of o) == bit_and b (mask_of o) in
      let bits_read = parse_int (halves cidr).1 in
      ap
        (λ b.
          if not b
          then str_eq ip cidr
          else masked_alike bits_read (to_int ip) (to_int (halves cidr).0))
        network
      ∙ ap (λ o. masked_alike o (to_int ip) (to_int (halves cidr).0)) bits
      ∙ ap (λ a. masked_alike (some (pos n)) a (to_int (halves cidr).0)) left
      ∙ ap (masked_alike (some (pos n)) x) right
      ∙ same_network n x y (first_bit n bits some_bits) few small small'
      ∙ ap (λ w. contains w x) (sym same)
