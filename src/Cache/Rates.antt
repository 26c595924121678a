-- ===== src/Cache/Rates.antt =====
-- `RatesService` (backend/src/rates/rates.service.ts): the price of a lumen, in millionths of a dollar. Asking
-- the Stellar service for it is a function of the state of the outside.
use dabdub.Prelude.{ℕ, Bool, String, some, ◌≡◌, refl, arith}
use dabdub.Cache.Redis.{Redis, RedisLaws}
use dabdub.Cache.Envelope.{Codec, CodecLaws}
use dabdub.Cache.Service.{set, get_or_set}
use dabdub.Cache.Laws.{get-set}

abbrev pub rate_cache_key : String
rate_cache_key = "rate:xlm:usd"

abbrev pub rate_ttl_seconds : ℕ
rate_ttl_seconds = 30

module _ {R S : Type 0} (redis : Redis R) (codec : Codec ℕ) (ns : String) (ask : S → ℕ × S) where
  abbrev pub rate_of : (ℕ × Bool) × R × S → ℕ × R × S
  rate_of ((rate, hit), r, s) = (rate, r, s)

  unfoldable pub get_xlm_usd_rate : R × S → ℕ × R × S
  unfolding get_or_set
  get_xlm_usd_rate (r, s) =
      rate_of (get_or_set redis codec ns rate_cache_key ask rate_ttl_seconds (r, s))

  unfoldable pub fetch_and_cache : R × S → ℕ × R × S
  unfolding set
  fetch_and_cache (r, s) =
      let (rate, s') = ask s in
      (rate, set redis codec ns rate_cache_key rate (some rate_ttl_seconds) r, s')

  module _ (stored : RedisLaws redis) (coded : CodecLaws codec) where
    -- After the rate has been fetched, it is answered from the cache, and nothing is asked or written.
    get_xlm_usd_rate-fetch_and_cache :
        (r : R) (s : S)
        → let (rate, r', s') = fetch_and_cache (r, s) in get_xlm_usd_rate (r', s') ≡ (rate, r', s')
    unfolding fetch_and_cache get_xlm_usd_rate
    get_xlm_usd_rate-fetch_and_cache r s =
        rw
          (
            get-set redis codec ns stored coded rate_cache_key (ask s).0 (some rate_ttl_seconds) r
                (omega arith),
            get_or_set,
          )
          refl
