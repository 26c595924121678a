-- ===== src/Security/Guards.antt =====
-- `ipInCidr`, `getClientIp` and `canActivate` of backend/src/security/ip-allowlist.guard.ts.
use Prim.Native.Nat.{bit_and}
use dabdub.Prelude.{
  ℕ, ◌+◌, ◌-◌, ◌*◌, ◌%◌, ◌^◌, Bool, false, not, ◌&&◌, ◌||◌, Option, none, some, String, List, [],
  ◌∷◌, map, if◌then◌else◌, ◌==◌, str_eq, ℤ, pos, negsuc,
}
use dabdub.Security.Addresses.{dot, comma, slash, split, has_char, trim, parse_int}

-- An unsigned number of 32 bits with all bits turned.
abbrev pub complement : ℕ → ℕ
complement x = 2 ^ 32 - 1 - x

-- How far `1 << (32 - n)` shifts: JavaScript counts it modulo 32, and takes what is no number for 0.
abbrev pub shift_of : Option ℤ → ℕ
shift_of none = 0
shift_of (some (pos n)) = (64 - n % 32) % 32
shift_of (some (negsuc n)) = (33 + n) % 32

-- `~((1 << (32 - parseInt(bits, 10))) - 1) >>> 0`
abbrev pub mask_of : Option ℤ → ℕ
mask_of bits = complement (2 ^ shift_of bits - 1)

-- `(acc << 8) + parseInt(octet, 10)`, modulo 2 ^ 32; the next shift takes what is no number for 0.
abbrev pub add_octet : ℕ → Option ℤ → ℕ
add_octet acc none = 0
add_octet acc (some (pos n)) = (acc * 256 + n) % 2 ^ 32
add_octet acc (some (negsuc n)) = (acc * 256 + (2 ^ 32 - 1 - n % 2 ^ 32)) % 2 ^ 32

abbrev pub to_int_from : ℕ → List String → ℕ
to_int_from acc [] = acc
to_int_from acc (o ∷ os) = to_int_from (add_octet acc (parse_int o)) os

unfoldable pub to_int : (addr : String) → ℕ
to_int addr = to_int_from 0 (split dot addr)

-- `const [range, bits] = cidr.split('/')`
unfoldable pub halves : String → String × String
halves cidr = elim (split slash cidr) [
  | [] ↦ ("", "")
  | r ∷ rest ↦ elim rest [ [] ↦ (r, "") | b ∷ more ↦ (r, b) ]
]

unfoldable pub ip_in_cidr : (ip cidr : String) → Bool
ip_in_cidr ip cidr =
    let (range, bits) = halves cidr in
    let mask = mask_of (parse_int bits) in
    if not (has_char slash cidr)
    then str_eq ip cidr
    else bit_and (to_int ip) mask == bit_and (to_int range) mask

-- `getClientIp`: the first address forwarded, or the request's.
abbrev pub first_of : List String → String
first_of [] = ""
first_of (s ∷ ss) = s

abbrev pub get_client_ip : (forwarded ip : Option String) → String
get_client_ip (some f) ip = trim (first_of (split comma f))
get_client_ip none (some ip) = ip
get_client_ip none none = ""

abbrev keep_entries : List String → List String
keep_entries [] = []
keep_entries (e ∷ es) = let rest = keep_entries es in if str_eq e "" then rest else e ∷ rest

abbrev pub allowed_entries : (raw : String) → List String
allowed_entries raw = keep_entries (map trim (split comma raw))

abbrev any_entry : (ip : String) → List String → Bool
unfolding ip_in_cidr
any_entry ip [] = false
any_entry ip (e ∷ es) = ip_in_cidr ip e || any_entry ip es

-- Whether the guard lets the request pass; otherwise it throws.
unfoldable pub can_activate :
    (is_dev bypass_in_dev : Bool) → (raw : String) → (forwarded ip : Option String) → Bool
unfolding any_entry
can_activate is_dev bypass raw forwarded ip =
    (is_dev && bypass) || any_entry (get_client_ip forwarded ip) (allowed_entries raw)
