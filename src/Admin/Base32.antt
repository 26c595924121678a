-- ===== src/Admin/Base32.antt =====
-- `base32Encode` and `base32Decode` of backend/src/admin/admin.service.ts. JavaScript's bit operations work on
-- 32 bits: `x << k` keeps the low `32 - k` bits of `x`. `& 0x1f` is the remainder by 32.
pub mod RoundTrip
use Prim.Native.Char.{Char, code}
use Prim.Native.Nat.{bit_or}
use Prim.Native.String
use dabdub.Prelude.{
  ℕ, zero, suc, ◌+◌, ◌-◌, ◌*◌, ◌/◌, ◌%◌, ◌^◌, ◌==◌, true, false, Option, none, some, String, List,
  [], ◌∷◌, ◌++◌, if◌then◌else◌, ltb, leb,
}

abbrev pub alpha : String
alpha = "ABCDEFGHIJKLMNOPQRSTUVWXYZ234567"

-- `x << k` on 32 bits.
abbrev pub shl : (x k : ℕ) → ℕ
shl x k = x % 2 ^ (32 - k) * 2 ^ k

-- `(val << n) | digit`
unfoldable pub push_bits : (n val digit : ℕ) → ℕ
push_bits n val digit = bit_or (shl val n) digit

-- `while (bits >= 5)`: the digits that leave, and how many bits stay. The fuel is the number of bits.
abbrev pub drain : (fuel bits val : ℕ) → List ℕ × ℕ
drain zero bits val = ([], bits)
drain (suc fuel) bits val =
    let (digits, left) = drain fuel (bits - 5) val in
    if leb 5 bits then (val / 2 ^ (bits - 5) % 32 ∷ digits, left) else ([], bits)

-- The digits of the bytes, and what is left at the end.
unfoldable pub encode_digits : (bits val : ℕ) → List ℕ → List ℕ
unfolding push_bits
encode_digits bits val [] = if ltb 0 bits then shl val (5 - bits) % 32 ∷ [] else []
encode_digits bits val (byte ∷ bytes) =
    let val' = push_bits 8 val byte in
    let (digits, left) = drain (bits + 8) (bits + 8) val' in digits ++ encode_digits left val' bytes

-- `s[i]`, as a text.
abbrev pub char_at : String → ℕ → String
char_at String.[] i = "undefined"
char_at (String.◌∷◌ c s) zero = String.◌∷◌ c ""
char_at (String.◌∷◌ c s) (suc i) = char_at s i

unfoldable pub letters : List ℕ → String
letters [] = ""
letters (d ∷ ds) = String.◌++◌ (char_at alpha d) (letters ds)

unfoldable pub base32_encode : List ℕ → String
unfolding encode_digits letters
base32_encode bytes = letters (encode_digits 0 0 bytes)

-- `alpha.indexOf(c)`, from a position on.
abbrev pub index_from : (position : ℕ) → String → (code : ℕ) → Option ℕ
index_from i String.[] c = none
index_from i (String.◌∷◌ x s) c = if code x == c then some i else index_from (i + 1) s c

-- The code of a letter's capital, for the Latin letters.
abbrev pub upper_code : ℕ → ℕ
upper_code c = if ltb 96 c then if ltb c 123 then c - 32 else c else c

abbrev pub add_digit : Option ℕ → List ℕ → List ℕ
add_digit none ds = ds
add_digit (some d) ds = d ∷ ds

-- The digits of a text; any other character is passed over, so the padding is too.
unfoldable pub digits_of : String → List ℕ
digits_of String.[] = []
digits_of (String.◌∷◌ c s) = add_digit (index_from 0 alpha (upper_code (code c))) (digits_of s)

-- The bytes of the digits; the bits that do not make a byte are dropped.
unfoldable pub decode_digits : (bits val : ℕ) → List ℕ → List ℕ
unfolding push_bits
decode_digits bits val [] = []
decode_digits bits val (d ∷ ds) =
    let val' = push_bits 5 val d in
    elim (leb 8 (bits + 5)) [
      | true ↦ val' / 2 ^ (bits + 5 - 8) % 256 ∷ decode_digits (bits + 5 - 8) val' ds
      | false ↦ decode_digits (bits + 5) val' ds
    ]

unfoldable pub base32_decode : String → List ℕ
unfolding digits_of decode_digits
base32_decode s = decode_digits 0 0 (digits_of s)
