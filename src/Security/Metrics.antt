-- ===== src/Security/Metrics.antt =====
-- The methods of backend/src/prometheus/metrics.guard.ts, whose networks are a first and a last address.
use Prim.Native.Nat.{bit_and, bit_or}
use dabdub.Prelude.{
  ℕ, ◌-◌, ◌*◌, ◌^◌, Bool, true, false, ◌&&◌, ◌||◌, Option, none, some, String, List, [], ◌∷◌, map,
  if◌then◌else◌, ◌==◌, ltb, leb, str_eq, ℤ, pos, negsuc, truthy,
}
use dabdub.Security.Addresses.{dot, comma, slash, split, has_char, trim, parse_int}
use dabdub.Security.Guards.{complement, halves, first_of}

-- A part of an address: a number from 0 to 255.
abbrev pub octet : Option ℤ → Option ℕ
octet none = none
octet (some (negsuc n)) = none
octet (some (pos n)) = if ltb 255 n then none else some n

abbrev pub octets_from : ℕ → List String → Option ℕ
octets_from acc [] = some acc
octets_from acc (p ∷ ps) = elim (octet (parse_int p)) [
  | none ↦ none
  | some n ↦ octets_from (bit_or (acc * 256) n) ps
]

abbrev pub four_parts : List String → Bool
four_parts (a ∷ b ∷ c ∷ d ∷ []) = true
four_parts _ = false

unfoldable pub ip_to_big_int : String → Option ℕ
ip_to_big_int ip =
    let parts = split dot ip in if four_parts parts then octets_from 0 parts else none

pub record Network : Type 0 where
  pub start : ℕ
  pub end : ℕ

abbrev pub mask : (prefix : ℕ) → ℕ
mask prefix = if prefix == 0 then 0 else bit_and ((2 ^ 32 - 1) * 2 ^ (32 - prefix)) (2 ^ 32 - 1)

abbrev pub network_of : (ip prefix : ℕ) → Network
network_of ip prefix =
    let start = bit_and ip (mask prefix) in
    record { start = start; end = bit_or start (complement (mask prefix)) }

abbrev pub prefix_of : Option ℤ → Option ℕ
prefix_of none = none
prefix_of (some (negsuc n)) = none
prefix_of (some (pos n)) = if ltb 32 n then none else some n

unfoldable pub parse_cidr : (cidr : String) → Option Network
unfolding ip_to_big_int
parse_cidr cidr =
    let (ip_part, prefix_part) = halves cidr in
    elim (prefix_of (parse_int prefix_part)) [
      | none ↦ none
      | some prefix ↦ elim (ip_to_big_int ip_part) [
        | none ↦ none
        | some ip ↦ some (network_of ip prefix)
      ]
    ]

abbrev pub contains : Network → ℕ → Bool
contains net ip = leb net.start ip && leb ip net.end

-- The single addresses and the networks that the guard keeps.
pub record MetricsGuard : Type 0 where
  pub allowed_ips : List String
  pub allowed_networks : List Network

abbrev add_network : Option Network → MetricsGuard → MetricsGuard
add_network none g = g
add_network (some net) g = record g { allowed_networks = net ∷ g.allowed_networks }

abbrev add_entry : (entry : String) → MetricsGuard → MetricsGuard
unfolding parse_cidr
add_entry entry g =
    if str_eq entry ""
    then g
    else if has_char slash entry
    then add_network (parse_cidr entry) g
    else record g { allowed_ips = entry ∷ g.allowed_ips }

abbrev add_entries : List String → MetricsGuard
unfolding add_entry
add_entries [] = record { allowed_ips = []; allowed_networks = [] }
add_entries (e ∷ es) = add_entry e (add_entries es)

-- The constructor, over the text of the list.
unfoldable pub new_guard : (raw : String) → MetricsGuard
unfolding add_entries
new_guard raw = add_entries (map trim (split comma raw))

abbrev any_network : ℕ → List Network → Bool
any_network ip [] = false
any_network ip (net ∷ nets) = contains net ip || any_network ip nets

abbrev any_text : (ip : String) → List String → Bool
any_text ip [] = false
any_text ip (x ∷ xs) = str_eq x ip || any_text ip xs

unfoldable pub is_allowed : MetricsGuard → (ip : String) → Bool
unfolding ip_to_big_int
is_allowed g ip =
    if any_text ip g.allowed_ips
    then true
    else elim (ip_to_big_int ip) [ none ↦ false | some n ↦ any_network n g.allowed_networks ]

-- The first address forwarded, or that of the socket, or the request's.
abbrev pub extract_client_ip : (forwarded remote_address ip : Option String) → String
extract_client_ip forwarded remote ip = elim (truthy forwarded) [
  | some f ↦ trim (first_of (split comma f))
  | none ↦ elim remote [ some r ↦ r | none ↦ elim ip [ some i ↦ i | none ↦ "unknown" ] ]
]

unfoldable pub lets_in : MetricsGuard → (forwarded remote_address ip : Option String) → Bool
unfolding is_allowed
lets_in g forwarded remote ip = is_allowed g (extract_client_ip forwarded remote ip)
