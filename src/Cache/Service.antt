-- ===== src/Cache/Service.antt =====
-- `CacheService` (backend/src/cache/cache.service.ts). Metrics and log lines are left out. `T | undefined` is
-- an option.
use Prim.Native.Char.{code}
use Prim.Native.String
use dabdub.Prelude.{
  ℕ, zero, suc, ◌+◌, Bool, true, false, not, Option, none, some, String, List, [], ◌∷◌, ◌++◌, map,
  if◌then◌else◌, str_eq, truthy, ◌==◌,
}
use dabdub.Cache.Redis.{Redis}
use dabdub.Cache.Envelope.{Codec, or_undefined, encode, decode}

-- `options?.ttlSeconds ?? 86400`
abbrev pub ttl_or_default : Option ℕ → ℕ
ttl_or_default none = 86400
ttl_or_default (some seconds) = seconds

-- The rest of a text after a prefix, or the text.
abbrev pub without_prefix : (rest text prefix : String) → String
without_prefix rest text String.[] = rest
without_prefix String.[] text (String.◌∷◌ c prefix) = text
without_prefix (String.◌∷◌ d rest) text (String.◌∷◌ c prefix) =
    let after = without_prefix rest text prefix in if code d == code c then after else text

module _ {R A : Type 0} (redis : Redis R) (codec : Codec A) (ns : String) where
  -- `k(key)`
  abbrev pub namespaced : (key : String) → String
  namespaced key = String.◌++◌ ns key

  abbrev pub strip_ns : (ns_key : String) → String
  strip_ns ns_key = without_prefix ns_key ns_key ns

  unfoldable pub get : (key : String) → R → Option A
  unfolding decode
  get key r = or_undefined (truthy (redis.get (namespaced key) r)) (decode codec)

  unfoldable pub set : (key : String) → A → (ttl_seconds : Option ℕ) → R → R
  unfolding encode
  set key value ttl_seconds r =
      redis.set_ex (namespaced key) (encode codec value) (ttl_or_default ttl_seconds) r

  unfoldable pub del : (key : String) → R → R
  del key r = redis.publish key (redis.del (namespaced key ∷ []) r).1

  -- The keys of one page of the scan, deleted.
  abbrev pub del_page : List String → ℕ × List String × R → ℕ × List String × R
  del_page [] (deleted, invalidated, r) = (deleted, invalidated, r)
  del_page (key ∷ keys) (deleted, invalidated, r) =
      let (n, r') = redis.del (key ∷ keys) r in
      (deleted + n, invalidated ++ map strip_ns (key ∷ keys), r')

  -- The `do` loop, on fuel; none where it runs out.
  unfoldable pub del_pages :
      (fuel : ℕ) → (cursor pattern : String) → ℕ × List String × R → Option (ℕ × List String × R)
  del_pages zero cursor pattern done = none
  del_pages (suc fuel) cursor pattern (deleted, invalidated, r) =
      let (next, keys) = redis.scan cursor pattern r in
      let done = del_page keys (deleted, invalidated, r) in
      let rest = del_pages fuel next pattern done in
      if not (str_eq next "0") then rest else some done

  abbrev pub publish_all : (list : List String → String) → ℕ × List String × R → ℕ × R
  publish_all list (deleted, [], r) = (deleted, r)
  publish_all list (deleted, key ∷ keys, r) = (deleted, redis.publish (list (key ∷ keys)) r)

  -- `delPattern`; `list` is `JSON.stringify` of a list.
  unfoldable pub del_pattern :
      (fuel : ℕ) → (list : List String → String) → (pattern : String) → R → Option (ℕ × R)
  unfolding del_pages
  del_pattern fuel list pattern r = elim (del_pages fuel "0" (namespaced pattern) (0, [], r)) [
    | none ↦ none
    | some done ↦ some (publish_all list done)
  ]

  -- `getOrSet`: the value, whether it was in the cache, and the state. The fetch has a state of its own.
  unfoldable pub get_or_set :
      {S : Type 0}
      → (key : String) → (fetch : S → A × S) → (ttl_seconds : ℕ) → R × S
      → (A × Bool) × R × S
  unfolding get set
  get_or_set key fetch ttl_seconds (r, s) = elim (get key r) [
    | some cached ↦ ((cached, true), r, s)
    | none ↦ let (value, s') = fetch s in ((value, false), set key value (some ttl_seconds) r, s')
  ]
