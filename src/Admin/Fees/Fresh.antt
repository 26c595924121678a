-- ===== src/Admin/Fees/Fresh.antt =====
-- The cached fees are never out of date.
use dabdub.Prelude.{
  Option, none, some, String, List, [], ◌∷◌, ◌≡◌, refl, sym, subst, ◌⊎◌, inl, inr, arith,
  Option-cases,
}
use dabdub.Cache.Redis.{Redis, RedisLaws}
use dabdub.Cache.Envelope.{Codec, CodecLaws}
use dabdub.Cache.Service.{get, set, get_or_set}
use dabdub.Cache.Laws.{get-set, get-del}
use dabdub.Admin.Fees.{
  FeeConfig, FeeStore, FeeRequest, find_fee, platform_fee_cache_key, platform_fee_ttl_seconds,
  get_global_fees, change_fee, update_global_fee, serve_fee, serve_fees,
}

module _ {R : Type 0} (redis : Redis R) (codec : Codec (List FeeConfig)) (ns : String)
    (by_type : List FeeConfig → List FeeConfig) where
  -- The cache holds no fees, or those of the table.
  abbrev pub IsFresh : FeeStore R → Type 0
  IsFresh s =
      (get redis codec ns platform_fee_cache_key s.cache ≡ none)
      ⊎ (get redis codec ns platform_fee_cache_key s.cache ≡ some (by_type s.configs))

  module _ (stored : RedisLaws redis) (coded : CodecLaws codec) where
    abbrev ReadsCurrent : FeeStore R → Type 0
    ReadsCurrent s =
        ((get_global_fees redis codec ns by_type s).0 ≡ by_type s.configs)
        × IsFresh (get_global_fees redis codec ns by_type s).1

    get_global_fees-ReadsCurrent : (s : FeeStore R) → IsFresh s → ReadsCurrent s
    unfolding get_global_fees get_or_set
    get_global_fees-ReadsCurrent s (inl missing) =
        let kept =
          set redis codec ns platform_fee_cache_key (by_type s.configs)
            (some platform_fee_ttl_seconds) s.cache in
        let run : get_global_fees redis codec ns by_type s
            ≡ (by_type s.configs, record s { cache = kept }) =
          rw (missing, get_or_set) refl in
        subst (λ (r : List FeeConfig × FeeStore R). (r.0 ≡ by_type s.configs) × IsFresh r.1)
          (sym run)
          (
            refl,
            inr (
                get-set redis codec ns stored coded platform_fee_cache_key (by_type s.configs)
                  (some platform_fee_ttl_seconds) s.cache (omega arith)),
          )
    get_global_fees-ReadsCurrent s (inr held) =
        let run : get_global_fees redis codec ns by_type s ≡ (by_type s.configs, s) =
          rw (held, get_or_set) refl in
        subst (λ (r : List FeeConfig × FeeStore R). (r.0 ≡ by_type s.configs) × IsFresh r.1)
          (sym run) (refl, inr held)

    change_fee-IsFresh :
        (rate : String) (admin reason : Option String) (config : FeeConfig) (s : FeeStore R)
        → IsFresh (change_fee redis codec ns by_type rate admin reason config s).1
    change_fee-IsFresh rate none reason config s =
        inl (get-del redis codec ns stored coded platform_fee_cache_key s.cache)
    change_fee-IsFresh rate (some admin) reason config s =
        inl (get-del redis codec ns stored coded platform_fee_cache_key s.cache)

    update_global_fee-IsFresh :
        (t rate : String) (admin reason : Option String) (s : FeeStore R)
        → IsFresh s
        → IsFresh (update_global_fee redis codec ns by_type t rate admin reason s).1
    unfolding update_global_fee
    update_global_fee-IsFresh t rate admin reason s fresh =
        elim (Option-cases (find_fee t s.configs)) [
          | inl e ↦ rw (e, update_global_fee) fresh
          | inr (config, e) ↦
              rw (e, update_global_fee) (change_fee-IsFresh rate admin reason config s)
        ]

    serve_fees-IsFresh :
        (qs : List (FeeRequest redis codec ns by_type)) (s : FeeStore R)
        → IsFresh s
        → IsFresh (serve_fees redis codec ns by_type qs s)
    unfolding serve_fees serve_fee
    serve_fees-IsFresh [] s fresh = fresh
    serve_fees-IsFresh (FeeRequest.read ∷ qs) s fresh =
        serve_fees-IsFresh qs (get_global_fees redis codec ns by_type s).1
          (get_global_fees-ReadsCurrent s fresh).1
    serve_fees-IsFresh (FeeRequest.update t rate admin reason ∷ qs) s fresh =
        serve_fees-IsFresh qs (update_global_fee redis codec ns by_type t rate admin reason s).1
          (update_global_fee-IsFresh t rate admin reason s fresh)

    -- After any requests for the fees and any changes of them, one after the other, a request for the fees
    -- answers what the table holds then, when the cache was not out of date to begin with: no change is
    -- hidden by what was cached before it.
    pub get_global_fees-serve_fees :
        (qs : List (FeeRequest redis codec ns by_type)) (s : FeeStore R)
        → IsFresh s
        → (get_global_fees redis codec ns by_type (serve_fees redis codec ns by_type qs s)).0
          ≡ by_type (serve_fees redis codec ns by_type qs s).configs
    get_global_fees-serve_fees qs s fresh =
        (get_global_fees-ReadsCurrent (serve_fees redis codec ns by_type qs s)
          (serve_fees-IsFresh qs s fresh)).0
