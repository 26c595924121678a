-- ===== src/Cache/Laws.antt =====
-- What a read finds after the writes of `CacheService` (backend/src/cache/cache.service.ts).
use Prim.Native.String
use text.Mathlib.TextLemmas.{append_cancel_left}
use dabdub.Prelude.{
  ℕ, ◌<◌, Bool, true, false, Option, none, some, String, List, [], ◌∷◌, truthy, All, str_eq, eq_iff,
  ◌≡◌, ◌≢◌, refl, ap, ◌∙◌, arith, if◌then◌else◌,
}
use dabdub.Cache.Redis.{Redis, RedisLaws}
use dabdub.Cache.Envelope.{Codec, CodecLaws, or_undefined, encode, decode, decode-encode}
use dabdub.Cache.Service.{ttl_or_default, get, set, del}

pub data Write (A : Type 0) : Type 0 where
  set_key : (key : String) → A → (ttl_seconds : Option ℕ) → Write A
  del_key : (key : String) → Write A

-- The cache as a table: what a write makes of the value of each key.
unfoldable pub write_table : {A : Type 0} → Write A → (String → Option A) → String → Option A
write_table (Write.set_key key value ttl) table other =
    if str_eq other key then some value else table other
write_table (Write.del_key key) table other = if str_eq other key then none else table other

unfoldable pub write_tables :
    {A : Type 0} → List (Write A) → (String → Option A) → String → Option A
unfolding write_table
write_tables [] table = table
write_tables (w ∷ ws) table = write_tables ws (write_table w table)

-- Redis refuses a time to live of 0.
abbrev pub IsTimed : {A : Type 0} → Write A → Type 0
IsTimed (Write.set_key key value ttl) = 0 < ttl_or_default ttl
IsTimed (Write.del_key key) = Unit

module _ {R A : Type 0} (redis : Redis R) (codec : Codec A) (ns : String) where
  unfoldable pub write : Write A → R → R
  unfolding set del
  write (Write.set_key key value ttl) r = set redis codec ns key value ttl r
  write (Write.del_key key) r = del redis codec ns key r

  unfoldable pub write_all : List (Write A) → R → R
  unfolding write
  write_all [] r = r
  write_all (w ∷ ws) r = write_all ws (write w r)

  -- What was encoded is not the empty text, which `get` takes for a miss.
  truthy-encode : CodecLaws codec → (a : A) → truthy (some (encode codec a)) ≡ some (encode codec a)
  unfolding decode
  truthy-encode coded a = go (encode codec a) (decode-encode codec coded a)
    where
      go : (s : String) → decode codec s ≡ some a → truthy (some s) ≡ some s
      go String.[] e = absurd (ground (arith, coded.parse_envelope_empty, e))
      go (String.◌∷◌ c s) e = refl

  module _ (stored : RedisLaws redis) (coded : CodecLaws codec) where
    pub get-set :
        (key : String) (value : A) (ttl_seconds : Option ℕ) (r : R)
        → 0 < ttl_or_default ttl_seconds
        → get redis codec ns key (set redis codec ns key value ttl_seconds r) ≡ some value
    unfolding get set
    get-set key value ttl_seconds r positive =
        ap (λ o. or_undefined (truthy o) (decode codec))
          (stored.get_set (String.◌++◌ ns key) (encode codec value) (ttl_or_default ttl_seconds) r
            positive)
        ∙ ap (λ o. or_undefined o (decode codec)) (truthy-encode coded value)
        ∙ decode-encode codec coded value

    pub get_other-set :
        (other key : String) (value : A) (ttl_seconds : Option ℕ) (r : R)
        → other ≢ key
        → get redis codec ns other (set redis codec ns key value ttl_seconds r)
          ≡ get redis codec ns other r
    unfolding get set
    get_other-set other key value ttl_seconds r differ =
        ap (λ o. or_undefined (truthy o) (decode codec))
          (stored.get_set_other (String.◌++◌ ns other) (String.◌++◌ ns key) (encode codec value)
            (ttl_or_default ttl_seconds) r (λ same. differ (append_cancel_left ns other key same)))

    pub get-del : (key : String) (r : R) → get redis codec ns key (del redis codec ns key r) ≡ none
    unfolding get del
    get-del key r =
        ap (λ o. or_undefined (truthy o) (decode codec))
          (stored.get_publish (String.◌++◌ ns key) key _ ∙ stored.get_del (String.◌++◌ ns key) r)

    get_other-del :
        (other key : String) (r : R)
        → other ≢ key
        → get redis codec ns other (del redis codec ns key r) ≡ get redis codec ns other r
    unfolding get del
    get_other-del other key r differ =
        ap (λ o. or_undefined (truthy o) (decode codec))
          (stored.get_publish (String.◌++◌ ns other) key _
            ∙ stored.get_del_other (String.◌++◌ ns other) (String.◌++◌ ns key ∷ []) r
                (λ same. differ (append_cancel_left ns other key same), tt))

    get-write :
        (w : Write A) (r : R) (table : String → Option A)
        → IsTimed w
        → ((key : String) → get redis codec ns key r ≡ table key)
        → (key : String) → get redis codec ns key (write w r) ≡ write_table w table key
    unfolding write write_table
    get-write (Write.set_key key value ttl) r table timed same other = go (str_eq other key) refl
      where
        go :
            (c : Bool)
            → str_eq other key ≡ c
            → get redis codec ns other (set redis codec ns key value ttl r)
              ≡ (if c then some value else table other)
        go true e =
            ap (λ k. get redis codec ns k (set redis codec ns key value ttl r))
              ((eq_iff other key).0 e)
            ∙ get-set key value ttl r timed
        go false e =
            get_other-set other key value ttl r
              (λ p. absurd (ground (arith, (eq_iff other key).1 p, e)))
            ∙ same other
    get-write (Write.del_key key) r table timed same other = go (str_eq other key) refl
      where
        go :
            (c : Bool)
            → str_eq other key ≡ c
            → get redis codec ns other (del redis codec ns key r)
              ≡ (if c then none else table other)
        go true e =
            ap (λ k. get redis codec ns k (del redis codec ns key r)) ((eq_iff other key).0 e)
            ∙ get-del key r
        go false e =
            get_other-del other key r (λ p. absurd (ground (arith, (eq_iff other key).1 p, e)))
            ∙ same other

    -- Whatever is set and deleted, in any order, each set with a time to live above 0: a read finds what
    -- a table of values holds after the same writes, when it did so before, and no value has expired.
    pub get-write_all :
        (ws : List (Write A)) (r : R) (table : String → Option A)
        → All IsTimed ws
        → ((key : String) → get redis codec ns key r ≡ table key)
        → (key : String) → get redis codec ns key (write_all ws r) ≡ write_tables ws table key
    unfolding write_all write_tables
    get-write_all [] r table timed same key = same key
    get-write_all (w ∷ ws) r table timed same key =
        get-write_all ws (write w r) (write_table w table) timed.1
          (get-write w r table timed.0 same) key
