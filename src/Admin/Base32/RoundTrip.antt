-- ===== src/Admin/Base32/RoundTrip.antt =====
-- Decoding gives back the bytes that were encoded. The encoder holds the last `b` bits of a byte that the
-- decoder has read but for these; `b` goes through 0, 3, 1, 4 and 2.
use Prim.Native.Char.{code}
use Prim.Native.String
use dabdub.Prelude.{
  String, Option, none, some, Bool, true, false, ◌&&◌, ◌==◌, ==_iff, both_true, if◌then◌else◌,
  All-append, leb, ltb, ◌≡◌, refl, ap, ◌∙◌, ℕ, zero, suc, ◌+◌, ◌-◌, ◌*◌, ◌/◌, ◌%◌, ◌^◌, ◌<◌, List,
  [], ◌∷◌, arith, All,
}
use text.Mathlib.TextLemmas.{cons-append, nil-append}
use dabdub.Security.Bits.{bit_or-low}
use dabdub.Admin.Base32.{
  alpha, add_digit, index_from, upper_code, char_at, letters, digits_of, base32_encode,
  base32_decode, shl, push_bits, drain, encode_digits, decode_digits,
}

push_byte : (v x : ℕ) → x < 256 → push_bits 8 v x ≡ v % 2 ^ 24 * 256 + x
unfolding push_bits
push_byte v x byte = bit_or-low 8 (v % 2 ^ 24) x byte

push_digit : (v d : ℕ) → d < 32 → push_bits 5 v d ≡ v % 2 ^ 27 * 32 + d
unfolding push_bits
push_digit v d digit = bit_or-low 5 (v % 2 ^ 27) d digit

abbrev pub IsByte : ℕ → Type 0
IsByte x = x < 256

-- The decoder before the encoder's remaining digits, where `b` bits of the last byte are with the encoder.
abbrev Resumes : (b : ℕ) → List ℕ → Type 0
Resumes b xs =
    (v v' last : ℕ)
    → last < 256
    → v % 2 ^ b ≡ last % 2 ^ b
    → v' % 2 ^ (8 - b) ≡ last / 2 ^ b
    → decode_digits (8 - b) v' (encode_digits b v xs) ≡ last ∷ xs

abbrev Begins : List ℕ → Type 0
Begins xs = (v v' : ℕ) → decode_digits 0 v' (encode_digits 0 v xs) ≡ xs

cons_path : (a b : ℕ) (xs ys : List ℕ) → a ≡ b → xs ≡ ys → a ∷ xs ≡ b ∷ ys
cons_path a b xs ys p q = ap (λ c. c ∷ xs) p ∙ ap (λ zs. b ∷ zs) q

end_3 : Resumes 3 []
unfolding encode_digits decode_digits
end_3 v v' last small low high =
    let d = shl v 2 % 32 in
    let u = push_bits 5 v' d in
    let pu : u ≡ v' % 2 ^ 27 * 32 + d = push_digit v' d (omega arith) in
    cons_path (u / 4 % 256) last [] [] (omega (arith, pu, small, low, high)) refl

end_1 : Resumes 1 []
unfolding encode_digits decode_digits
end_1 v v' last small low high =
    let d = shl v 4 % 32 in
    let u = push_bits 5 v' d in
    let pu : u ≡ v' % 2 ^ 27 * 32 + d = push_digit v' d (omega arith) in
    cons_path (u / 16 % 256) last [] [] (omega (arith, pu, small, low, high)) refl

end_4 : Resumes 4 []
unfolding encode_digits decode_digits
end_4 v v' last small low high =
    let d = shl v 1 % 32 in
    let u = push_bits 5 v' d in
    let pu : u ≡ v' % 2 ^ 27 * 32 + d = push_digit v' d (omega arith) in
    cons_path (u / 2 % 256) last [] [] (omega (arith, pu, small, low, high)) refl

end_2 : Resumes 2 []
unfolding encode_digits decode_digits
end_2 v v' last small low high =
    let d = shl v 3 % 32 in
    let u = push_bits 5 v' d in
    let pu : u ≡ v' % 2 ^ 27 * 32 + d = push_digit v' d (omega arith) in
    cons_path (u / 8 % 256) last [] [] (omega (arith, pu, small, low, high)) refl

next_0 : (x : ℕ) (xs : List ℕ) → x < 256 → Resumes 3 xs → Begins (x ∷ xs)
unfolding encode_digits decode_digits
next_0 x xs byte later v v' =
    let w = push_bits 8 v x in
    let pw : w ≡ v % 2 ^ 24 * 256 + x = push_byte v x byte in
    let d = w / 8 % 32 in
    let u = push_bits 5 v' d in
    let pu : u ≡ v' % 2 ^ 27 * 32 + d = push_digit v' d (omega arith) in
    later w u x byte (omega (arith, pw)) (omega (arith, pw, pu, byte))

next_3 : (x : ℕ) (xs : List ℕ) → x < 256 → Resumes 1 xs → Resumes 3 (x ∷ xs)
unfolding encode_digits decode_digits
next_3 x xs byte later v v' last small low high =
    let w = push_bits 8 v x in
    let pw : w ≡ v % 2 ^ 24 * 256 + x = push_byte v x byte in
    let d = w / 64 % 32 in
    let u = push_bits 5 v' d in
    let pu : u ≡ v' % 2 ^ 27 * 32 + d = push_digit v' d (omega arith) in
    let first : u / 4 % 256 ≡ last = omega (arith, pw, pu, small, low, high) in
    let d' = w / 2 % 32 in
    let u' = push_bits 5 u d' in
    let pu' : u' ≡ u % 2 ^ 27 * 32 + d' = push_digit u d' (omega arith) in
    cons_path (u / 4 % 256) last _ (x ∷ xs) first
      (later w u' x byte (omega (arith, pw)) (omega (arith, pw, pu, pu', byte)))

next_1 : (x : ℕ) (xs : List ℕ) → x < 256 → Resumes 4 xs → Resumes 1 (x ∷ xs)
unfolding encode_digits decode_digits
next_1 x xs byte later v v' last small low high =
    let w = push_bits 8 v x in
    let pw : w ≡ v % 2 ^ 24 * 256 + x = push_byte v x byte in
    let d = w / 16 % 32 in
    let u = push_bits 5 v' d in
    let pu : u ≡ v' % 2 ^ 27 * 32 + d = push_digit v' d (omega arith) in
    let first : u / 16 % 256 ≡ last = omega (arith, pw, pu, small, low, high) in
    cons_path (u / 16 % 256) last _ (x ∷ xs) first
      (later w u x byte (omega (arith, pw)) (omega (arith, pw, pu, byte)))

next_4 : (x : ℕ) (xs : List ℕ) → x < 256 → Resumes 2 xs → Resumes 4 (x ∷ xs)
unfolding encode_digits decode_digits
next_4 x xs byte later v v' last small low high =
    let w = push_bits 8 v x in
    let pw : w ≡ v % 2 ^ 24 * 256 + x = push_byte v x byte in
    let d = w / 128 % 32 in
    let u = push_bits 5 v' d in
    let pu : u ≡ v' % 2 ^ 27 * 32 + d = push_digit v' d (omega arith) in
    let first : u / 2 % 256 ≡ last = omega (arith, pw, pu, small, low, high) in
    let d' = w / 4 % 32 in
    let u' = push_bits 5 u d' in
    let pu' : u' ≡ u % 2 ^ 27 * 32 + d' = push_digit u d' (omega arith) in
    cons_path (u / 2 % 256) last _ (x ∷ xs) first
      (later w u' x byte (omega (arith, pw)) (omega (arith, pw, pu, pu', byte)))

next_2 : (x : ℕ) (xs : List ℕ) → x < 256 → Begins xs → Resumes 2 (x ∷ xs)
unfolding encode_digits decode_digits
next_2 x xs byte later v v' last small low high =
    let w = push_bits 8 v x in
    let pw : w ≡ v % 2 ^ 24 * 256 + x = push_byte v x byte in
    let d = w / 32 % 32 in
    let u = push_bits 5 v' d in
    let pu : u ≡ v' % 2 ^ 27 * 32 + d = push_digit v' d (omega arith) in
    let first : u / 8 % 256 ≡ last = omega (arith, pw, pu, small, low, high) in
    let d' = w / 1 % 32 in
    let u' = push_bits 5 u d' in
    let pu' : u' ≡ u % 2 ^ 27 * 32 + d' = push_digit u d' (omega arith) in
    let second : u' / 1 % 256 ≡ x = omega (arith, pw, pu, pu', byte) in
    cons_path (u / 8 % 256) last _ (x ∷ xs) first
      (cons_path (u' / 1 % 256) x _ xs second (later w u'))

-- All five states at once.
abbrev Everywhere : List ℕ → Type 0
Everywhere xs = Begins xs × Resumes 3 xs × Resumes 1 xs × Resumes 4 xs × Resumes 2 xs

resumes : (xs : List ℕ) → All IsByte xs → Everywhere xs
unfolding encode_digits decode_digits
resumes [] bytes = (λ v v'. refl, end_3, end_1, end_4, end_2)
resumes (x ∷ xs) bytes =
    let (at_0, at_3, at_1, at_4, at_2) = resumes xs bytes.1 in
    (
      next_0 x xs bytes.0 at_3,
      next_3 x xs bytes.0 at_1,
      next_1 x xs bytes.0 at_4,
      next_4 x xs bytes.0 at_2,
      next_2 x xs bytes.0 at_0,
    )

-- The letter of a digit stands for it; the table is checked letter by letter.
abbrev size : String → ℕ
size String.[] = 0
size (String.◌∷◌ c s) = suc (size s)

abbrev is_at : Option ℕ → ℕ → Bool
is_at none k = false
is_at (some n) k = n == k

abbrev indexed : (position : ℕ) → String → Bool
indexed k String.[] = true
indexed k (String.◌∷◌ c s) = is_at (index_from 0 alpha (upper_code (code c))) k && indexed (suc k) s

every_letter : indexed 0 alpha ≡ true
every_letter = refl

is_at-some : (o : Option ℕ) (k : ℕ) → is_at o k ≡ true → o ≡ some k
is_at-some none k e = absurd (ground arith)
is_at-some (some n) k e = ap (λ m. some m) ((==_iff n k).0 e)

letter_digit :
    (t : String) (k i : ℕ) (s : String)
    → indexed k t ≡ true
    → i < size t
    → digits_of (String.◌++◌ (char_at t i) s) ≡ (k + i) ∷ digits_of s
unfolding digits_of
letter_digit String.[] k i s table few = absurd (omega arith)
letter_digit (String.◌∷◌ c t) k zero s table few =
    let here =
      (both_true (is_at (index_from 0 alpha (upper_code (code c))) k) (indexed (suc k) t)
        table).0 in
    ap digits_of (cons-append c "" s ∙ ap (String.◌∷◌ c) (nil-append s))
    ∙ ap (λ o. add_digit o (digits_of s))
        (is_at-some (index_from 0 alpha (upper_code (code c))) k here)
    ∙ ap (λ n. n ∷ digits_of s) (omega arith)
letter_digit (String.◌∷◌ c t) k (suc i) s table few =
    let later =
      (both_true (is_at (index_from 0 alpha (upper_code (code c))) k) (indexed (suc k) t)
        table).1 in
    letter_digit t (suc k) i s later (omega (arith, few)) ∙ ap (λ n. n ∷ digits_of s) (omega arith)

digits_of-letters : (ds : List ℕ) → All (λ d. d < 32) ds → digits_of (letters ds) ≡ ds
unfolding letters digits_of
digits_of-letters [] small = refl
digits_of-letters (d ∷ ds) small =
    letter_digit alpha 0 d (letters ds) every_letter small.0
    ∙ cons_path (0 + d) d _ ds (omega arith) (digits_of-letters ds small.1)

abbrev AreDigits : List ℕ × ℕ → Type 0
AreDigits (ds, left) = All (λ d. d < 32) ds

if-AreDigits :
    (c : Bool) (xs : List ℕ) (m n : ℕ)
    → All (λ d. d < 32) xs
    → AreDigits (if c then (xs, m) else ([], n))
if-AreDigits true xs m n small = small
if-AreDigits false xs m n small = tt

drain-AreDigits : (fuel bits val : ℕ) → AreDigits (drain fuel bits val)
drain-AreDigits zero bits val = tt
drain-AreDigits (suc fuel) bits val =
    if-AreDigits (leb 5 bits) (val / 2 ^ (bits - 5) % 32 ∷ (drain fuel (bits - 5) val).0)
      (drain fuel (bits - 5) val).1 bits (omega arith, drain-AreDigits fuel (bits - 5) val)

encode_digits-All : (xs : List ℕ) (bits val : ℕ) → All (λ d. d < 32) (encode_digits bits val xs)
unfolding encode_digits
encode_digits-All [] bits val = last (ltb 0 bits)
  where
    last : (c : Bool) → All (λ d. d < 32) (if c then shl val (5 - bits) % 32 ∷ [] else [])
    last true = (omega arith, tt)
    last false = tt
encode_digits-All (x ∷ xs) bits val =
    All-append (λ d. d < 32) (drain (bits + 8) (bits + 8) (push_bits 8 val x)).0 _
      (drain-AreDigits (bits + 8) (bits + 8) (push_bits 8 val x)) (encode_digits-All xs _ _)

-- Decoding the encoded bytes gives the bytes, however many they are.
pub base32_decode-base32_encode :
    (bytes : List ℕ) → All IsByte bytes → base32_decode (base32_encode bytes) ≡ bytes
unfolding base32_encode base32_decode
base32_decode-base32_encode bytes small =
    ap (decode_digits 0 0)
      (digits_of-letters (encode_digits 0 0 bytes) (encode_digits-All bytes 0 0))
    ∙ (resumes bytes small).0 0 0
