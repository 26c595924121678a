-- ===== src/Security/Addresses.antt =====
-- The texts of addresses and networks, as JavaScript cuts and reads them.
use Prim.Native.Char.{Char, code}
use dabdub.Prelude.{
  ℕ, zero, suc, ◌+◌, ◌-◌, ◌*◌, Bool, false, ◌&&◌, ◌||◌, Option, none, some, String, List, [], ◌∷◌,
  if◌then◌else◌, ◌==◌, ltb, str_eq, is_space, ℤ, pos, negsuc,
}

abbrev pub dot : ℕ
dot = 46

abbrev pub comma : ℕ
comma = 44

abbrev pub slash : ℕ
slash = 47

-- A character before the parts that are there.
abbrev pub push : Char → List String → List String
push c [] = String.◌∷◌ c "" ∷ []
push c (s ∷ ss) = String.◌∷◌ c s ∷ ss

-- `s.split(separator)` for a separator of one character, given by its code.
unfoldable pub split : (separator : ℕ) → String → List String
split sep String.[] = "" ∷ []
split sep (String.◌∷◌ c s) =
    let rest = split sep s in if code c == sep then "" ∷ rest else push c rest

unfoldable pub has_char : (wanted : ℕ) → String → Bool
has_char w String.[] = false
has_char w (String.◌∷◌ c s) = code c == w || has_char w s

abbrev pub trim_start : String → String
trim_start String.[] = ""
trim_start (String.◌∷◌ c s) = let rest = trim_start s in if is_space c then rest else String.◌∷◌ c s

abbrev pub trim_end : String → String
trim_end String.[] = ""
trim_end (String.◌∷◌ c s) =
    let rest = trim_end s in if is_space c && str_eq rest "" then "" else String.◌∷◌ c rest

abbrev pub trim : String → String
trim s = trim_end (trim_start s)

abbrev is_digit : Char → Bool
is_digit c = ltb 47 (code c) && ltb (code c) 58

abbrev so_far : Option ℕ → ℕ
so_far none = 0
so_far (some n) = n

-- The number that the digits in front make, after the digits before; none where there is no digit.
abbrev digits_from : Option ℕ → String → Option ℕ
digits_from before String.[] = before
digits_from before (String.◌∷◌ c s) =
    let value = so_far before in
    let rest = digits_from (some (value * 10 + (code c - 48))) s in
    if is_digit c then rest else before

abbrev negated : Option ℕ → Option ℤ
negated none = none
negated (some zero) = some (pos 0)
negated (some (suc n)) = some (negsuc n)

abbrev positive : Option ℕ → Option ℤ
positive none = none
positive (some n) = some (pos n)

abbrev signed : String → Option ℤ
signed String.[] = none
signed (String.◌∷◌ c s) =
    if code c == 45
    then negated (digits_from none s)
    else if code c == 43
    then positive (digits_from none s)
    else positive (digits_from none (String.◌∷◌ c s))

-- `parseInt(s, 10)`, where none is not a number.
unfoldable pub parse_int : String → Option ℤ
parse_int s = signed (trim_start s)
