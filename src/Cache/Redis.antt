-- ===== src/Cache/Redis.antt =====
-- The Redis client that backend/src/cache/cache.service.ts is given, as far as the service calls it,
-- and what it relies on.
use dabdub.Prelude.{ℕ, ◌<◌, Option, none, some, String, List, [], ◌∷◌, All, ◌≡◌, ◌≢◌}

pub record Redis (R : Type 0) : Type 0 where
  pub get : (key : String) → R → Option String
  pub set_ex : (key value : String) → (seconds : ℕ) → R → R
  -- How many of the keys there were, and what is left.
  pub del : (keys : List String) → R → ℕ × R
  -- The next cursor, and keys that match.
  pub scan : (cursor pattern : String) → R → String × List String
  pub publish : (text : String) → R → R

-- A value stays until it is set again or deleted; that it expires later is no part of a call.
pub record RedisLaws {R : Type 0} (redis : Redis R) : Type 0 where
  pub get_set :
      (key value : String) (seconds : ℕ) (r : R)
      → 0 < seconds
      → redis.get key (redis.set_ex key value seconds r) ≡ some value
  pub get_set_other :
      (other key value : String) (seconds : ℕ) (r : R)
      → other ≢ key
      → redis.get other (redis.set_ex key value seconds r) ≡ redis.get other r
  pub get_del : (key : String) (r : R) → redis.get key (redis.del (key ∷ []) r).1 ≡ none
  pub get_del_other :
      (other : String) (keys : List String) (r : R)
      → All (λ key. other ≢ key) keys
      → redis.get other (redis.del keys r).1 ≡ redis.get other r
  pub get_publish :
      (key text : String) (r : R) → redis.get key (redis.publish text r) ≡ redis.get key r
