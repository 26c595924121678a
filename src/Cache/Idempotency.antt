-- ===== src/Cache/Idempotency.antt =====
-- `IdempotencyInterceptor` (backend/src/payment/idempotency.interceptor.ts) over the cache. The handler is whatever
-- the route does, on a state of its own; `tap` stores its answer before the next request comes.
use Prim.Native.String
use dabdub.Prelude.{ℕ, Option, none, some, String, truthy, arith, ◌≡◌, refl, ap}
use dabdub.Platform.Actions.{Result, ok, err}
use dabdub.Cache.Redis.{Redis, RedisLaws}
use dabdub.Cache.Envelope.{Codec, CodecLaws}
use dabdub.Cache.Service.{get, set}
use dabdub.Cache.Laws.{get-set}

-- The status and the body, as they are answered and stored.
pub record Reply (B : Type 0) : Type 0 where
  pub status : ℕ
  pub body : B

module _ {R B S : Type 0} (redis : Redis R) (codec : Codec (Reply B)) (ns : String) where
  -- `{ ttl: IDEMPOTENCY_TTL }` has no `ttlSeconds`, so the time to live is the default.
  abbrev pub store_reply :
      (cache_key : String) → R → Result (Reply B) × S → Result (Reply B) × R × S
  store_reply cache_key r (ok reply, s) = (ok reply, set redis codec ns cache_key reply none r, s)
  store_reply cache_key r (err e, s) = (err e, r, s)

  -- The request with a key, by what the cache holds.
  abbrev pub answer_or_handle :
      (cache_key : String)
      → Option (Reply B)
      → (S → Result (Reply B) × S)
      → R × S
      → Result (Reply B) × R × S
  answer_or_handle cache_key (some cached) handler (r, s) = (ok cached, r, s)
  answer_or_handle cache_key none handler (r, s) = store_reply cache_key r (handler s)

  abbrev pub without_key : (S → Result (Reply B) × S) → R × S → Result (Reply B) × R × S
  without_key handler (r, s) = let (reply, s') = handler s in (reply, r, s')

  -- `intercept`, for a key that is missing or empty, and for any other.
  abbrev pub intercept_key :
      Option String → (S → Result (Reply B) × S) → R × S → Result (Reply B) × R × S
  intercept_key none handler state = without_key handler state
  intercept_key (some key) handler (r, s) =
      let cache_key = String.◌++◌ "idempotency:payment:" key in
      answer_or_handle cache_key (get redis codec ns cache_key r) handler (r, s)

  unfoldable pub intercept :
      (idempotency_key : Option String)
      → (S → Result (Reply B) × S)
      → R × S
      → Result (Reply B) × R × S
  unfolding get set
  intercept idempotency_key handler state = intercept_key (truthy idempotency_key) handler state

  module _ (stored : RedisLaws redis) (coded : CodecLaws codec) where
    replay_stored :
        (cache_key : String) (second : S → Result (Reply B) × S) (r : R) (reply : Reply B)
        (done : Result (Reply B) × S)
        → (store_reply cache_key r done).0 ≡ ok reply
        → let (_, r', s') = store_reply cache_key r done in
          answer_or_handle cache_key (get redis codec ns cache_key r') second (r', s')
          ≡ (ok reply, r', s')
    replay_stored cache_key second r reply (ok first_reply, s) e =
        rw (get-set redis codec ns stored coded cache_key first_reply none r (omega arith))
          (ap (λ x. (x, set redis codec ns cache_key first_reply none r, s)) e)
    replay_stored cache_key second r reply (err x, s) e = absurd (ground arith)

    replay :
        (cache_key : String) (o : Option (Reply B)) (first second : S → Result (Reply B) × S)
        (r : R) (s : S) (reply : Reply B)
        → get redis codec ns cache_key r ≡ o
        → (answer_or_handle cache_key o first (r, s)).0 ≡ ok reply
        → let (_, r', s') = answer_or_handle cache_key o first (r, s) in
          answer_or_handle cache_key (get redis codec ns cache_key r') second (r', s')
          ≡ (ok reply, r', s')
    replay cache_key none first second r s reply found e =
        replay_stored cache_key second r reply (first s) e
    replay cache_key (some cached) first second r s reply found e = rw found (ap (λ x. (x, r, s)) e)

    -- When a request with a key has been answered, another request with that key is answered with the
    -- same status and the same body, whatever its handler would do, and its handler does not run:
    -- nothing else changes. The first answer may come from its handler or from the cache.
    pub intercept-intercept :
        (key : String) (first second : S → Result (Reply B) × S) (r : R) (s : S) (reply : Reply B)
        → truthy (some key) ≡ some key
        → (intercept (some key) first (r, s)).0 ≡ ok reply
        → let (_, r', s') = intercept (some key) first (r, s) in
          intercept (some key) second (r', s') ≡ (ok reply, r', s')
    unfolding intercept
    intercept-intercept String.[] first second r s reply named done = absurd (ground arith)
    intercept-intercept (String.◌∷◌ c key) first second r s reply named done =
        let cache_key = String.◌++◌ "idempotency:payment:" (String.◌∷◌ c key) in
        replay cache_key (get redis codec ns cache_key r) first second r s reply refl done
