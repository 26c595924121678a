-- ===== src/Cache/Samples.antt =====
-- A Redis and a codec for the tests, with what is asked of them: a table in memory, gzip that changes
-- nothing, and texts written with a mark before each letter.
use Prim.Native.Char.{Char, code}
use Prim.Native.String
use dabdub.Prelude.{
  ℕ, zero, suc, ◌+◌, ◌==◌, Bool, false, ◌||◌, Option, none, some, String, List, [], ◌∷◌, All,
  if◌then◌else◌, str_eq, eq_iff, eq_refl, ◌≡◌, ◌≢◌, refl, ap, arith, Bool-cases, inl, inr,
}
use dabdub.Cache.Redis.{Redis, RedisLaws}
use dabdub.Cache.Envelope.{Codec, CodecLaws, CacheEnvelope, Encoding}

abbrev pub Table : Type 0
Table = String → Option String

abbrev pub empty_table : Table
empty_table key = none

unfoldable pub has_key : String → List String → Bool
has_key key [] = false
has_key key (k ∷ ks) = str_eq key k || has_key key ks

unfoldable pub present : Option String → ℕ
present none = 0
present (some v) = 1

unfoldable pub count_present : List String → Table → ℕ
count_present [] r = 0
count_present (k ∷ ks) r = present (r k) + count_present ks r

abbrev pub table_redis : Redis Table
table_redis = record {
  get = λ key r. r key;
  set_ex = λ key value seconds r other. if str_eq other key then some value else r other;
  del = λ keys r. (count_present keys r, λ key. if has_key key keys then none else r key);
  scan = λ cursor pattern r. ("0", []);
  publish = λ text r. r;
}

different : (a b : String) → a ≢ b → str_eq a b ≡ false
different a b differ = elim (Bool-cases (str_eq a b)) [
  | inl e ↦ absurd (differ ((eq_iff a b).0 e))
  | inr e ↦ e
]

has_key_other : (key : String) (ks : List String) → All (λ k. key ≢ k) ks → has_key key ks ≡ false
unfolding has_key
has_key_other key [] others = refl
has_key_other key (k ∷ ks) others =
    ground (arith, different key k others.0, has_key_other key ks others.1)

pub table_redis_laws : RedisLaws table_redis
unfolding has_key
table_redis_laws = record {
  get_set = λ key value seconds r positive. rw (eq_refl key) refl;
  get_set_other = λ other key value seconds r differ. rw (different other key differ) refl;
  get_del = λ key r. rw (eq_refl key) refl;
  get_del_other = λ other keys r others. rw (has_key_other other keys others) refl;
  get_publish = λ key text r. refl;
}

-- A text before another one.
unfoldable pub put : String → String → String
put String.[] rest = String.◌∷◌ "." rest
put (String.◌∷◌ c s) rest = String.◌∷◌ "1" (String.◌∷◌ c (put s rest))

abbrev add_char : Char → Option (String × String) → Option (String × String)
add_char c none = none
add_char c (some (s, rest)) = some (String.◌∷◌ c s, rest)

unfoldable pub read : String → Option (String × String)
read String.[] = none
read (String.◌∷◌ d String.[]) = if code d == 46 then some ("", "") else none
read (String.◌∷◌ d (String.◌∷◌ c s)) =
    let more = add_char c (read s) in if code d == 46 then some ("", String.◌∷◌ c s) else more

pub read-put : (s rest : String) → read (put s rest) ≡ some (s, rest)
unfolding read put
read-put String.[] String.[] = refl
read-put String.[] (String.◌∷◌ c rest) = refl
read-put (String.◌∷◌ c s) rest = ap (add_char c) (read-put s rest)

-- A number as a text, of as many letters.
abbrev pub marks : ℕ → String
marks zero = ""
marks (suc n) = String.◌∷◌ "1" (marks n)

unfoldable pub length_of : String → ℕ
length_of String.[] = 0
length_of (String.◌∷◌ c s) = suc (length_of s)

pub length_of-marks : (n : ℕ) → length_of (marks n) ≡ n
unfolding length_of
length_of-marks zero = refl
length_of-marks (suc n) = ap (λ k. suc k) (length_of-marks n)

abbrev letter : Encoding → Char
letter Encoding.json = "j"
letter Encoding.gzip_base64 = "g"
letter Encoding.unknown = "u"

abbrev encoding_of : ℕ → Encoding
encoding_of n =
    if n == 106 then Encoding.json else if n == 103 then Encoding.gzip_base64 else Encoding.unknown

abbrev write_envelope : CacheEnvelope → String
write_envelope e = String.◌∷◌ (letter e.encoding) e.payload

abbrev read_envelope : String → Option CacheEnvelope
read_envelope String.[] = none
read_envelope (String.◌∷◌ c s) =
    some (record { v = 1; encoding = encoding_of (code c); payload = s })

abbrev pub plain_codec : {A : Type 0} → (A → String) → (String → Option A) → Codec A
plain_codec stringify parse = record {
  stringify = stringify;
  parse = parse;
  byte_length = String.count;
  gzip = λ s. s;
  gunzip = λ s. some s;
  stringify_envelope = write_envelope;
  parse_envelope = read_envelope;
}

envelope_back :
    (encoding : Encoding) (payload : String)
    → read_envelope (write_envelope (record { v = 1; encoding = encoding; payload = payload }))
      ≡ some (record { v = 1; encoding = encoding; payload = payload })
envelope_back Encoding.json payload = refl
envelope_back Encoding.gzip_base64 payload = refl
envelope_back Encoding.unknown payload = refl

pub plain_codec_laws :
    {A : Type 0} (stringify : A → String) (parse : String → Option A)
    → ((a : A) → parse (stringify a) ≡ some a)
    → CodecLaws (plain_codec stringify parse)
plain_codec_laws stringify parse back = record {
  parse_stringify = back;
  gunzip_gzip = λ s. refl;
  parse_envelope_stringify = envelope_back;
  parse_envelope_empty = refl;
}
