-- ===== src/Admin/Fees.antt =====
-- The global fees: `getGlobalFees`, `updateGlobalFee` and `recordFeeHistory` of
-- backend/src/admin/admin.service.ts, over the cache. The database's order by type is a parameter.
pub mod Fresh
use dabdub.Prelude.{
  ℕ, Bool, true, false, Option, none, some, String, List, [], ◌∷◌, if◌then◌else◌, str_eq,
}
use Prim.Native.String
use dabdub.Platform.Actions.{Result, ok, err, Error}
use dabdub.Cache.Redis.{Redis}
use dabdub.Cache.Envelope.{Codec}
use dabdub.Cache.Service.{del, get_or_set}

pub record FeeConfig : Type 0 where
  pub fee_type : String
  pub base_fee_rate : String

pub data FeeChangeType : Type 0 where
  global merchant_override : FeeChangeType

pub record FeeHistory : Type 0 where
  pub fee_type : String
  pub change_type : FeeChangeType
  pub merchant_id : Option String
  pub previous_value : String
  pub new_value : String
  pub actor_id : String
  pub reason : Option String

pub record FeeStore (R : Type 0) : Type 0 where
  pub cache : R
  pub configs : List FeeConfig
  pub history : List FeeHistory  -- the newest first

unfoldable pub find_fee : (fee_type : String) → List FeeConfig → Option FeeConfig
find_fee t [] = none
find_fee t (c ∷ cs) = if str_eq c.fee_type t then some c else find_fee t cs

unfoldable pub save_fee : FeeConfig → List FeeConfig → List FeeConfig
save_fee row [] = []
save_fee row (c ∷ cs) =
    let rest = save_fee row cs in if str_eq c.fee_type row.fee_type then row ∷ rest else c ∷ rest

abbrev pub platform_fee_cache_key : String
platform_fee_cache_key = "fee-config:platform:global"

abbrev pub platform_fee_ttl_seconds : ℕ
platform_fee_ttl_seconds = 300

-- `recordFeeHistory` of a change of the global rate. The column `actor_id` may not be null: the
-- database refuses a row without an actor.
abbrev pub record_fee_history :
    {R : Type 0}
    → FeeConfig
    → (new_value : String) → (actor_id reason : Option String) → FeeStore R
    → Result (Unit {0}) × FeeStore R
record_fee_history config new_value none reason s =
    (err (Error.failure "null value in column \"actor_id\" of relation \"fee_history\""), s)
record_fee_history config new_value (some actor_id) reason s =
    let entry : FeeHistory = record {
      fee_type = config.fee_type;
      change_type = FeeChangeType.global;
      merchant_id = none;
      previous_value = config.base_fee_rate;
      new_value = new_value;
      actor_id = actor_id;
      reason = reason;
    } in
    (ok tt, record s { history = entry ∷ s.history })

-- The rate is returned once the history is written.
abbrev pub reply_updated :
    {R : Type 0} → FeeConfig → Result (Unit {0}) × FeeStore R → Result FeeConfig × FeeStore R
reply_updated updated (ok tt, s) = (ok updated, s)
reply_updated updated (err e, s) = (err e, s)

module _ {R : Type 0} (redis : Redis R) (codec : Codec (List FeeConfig)) (ns : String)
    (by_type : List FeeConfig → List FeeConfig) where
  abbrev pub with_cache :
      FeeStore R → (List FeeConfig × Bool) × R × List FeeConfig → List FeeConfig × FeeStore R
  with_cache s ((value, hit), cache, configs) = (value, record s { cache = cache })

  unfoldable pub get_global_fees : FeeStore R → List FeeConfig × FeeStore R
  unfolding get_or_set
  get_global_fees s = with_cache s (
      get_or_set redis codec ns platform_fee_cache_key (λ configs. (by_type configs, configs))
        platform_fee_ttl_seconds (s.cache, s.configs))

  -- The rate is saved and the cache cleared before the history is written, which may fail.
  abbrev pub change_fee :
      (new_rate : String)
      → (admin_id reason : Option String) → FeeConfig
      → FeeStore R
      → Result FeeConfig × FeeStore R
  change_fee new_rate admin_id reason config s =
      let updated = record config { base_fee_rate = new_rate } in
      reply_updated updated (
        record_fee_history config new_rate admin_id reason (record s {
          cache = del redis codec ns platform_fee_cache_key s.cache;
          configs = save_fee updated s.configs;
        }))

  unfoldable pub update_global_fee :
      (fee_type new_rate : String)
      → (admin_id reason : Option String) → FeeStore R
      → Result FeeConfig × FeeStore R
  unfolding find_fee save_fee del
  update_global_fee fee_type new_rate admin_id reason s = elim (find_fee fee_type s.configs) [
    | none ↦ (
      err (Error.not_found (String.◌++◌ "Fee config for " (String.◌++◌ fee_type " not found"))),
      s,
    )
    | some config ↦ change_fee new_rate admin_id reason config s
  ]

  pub data FeeRequest : Type 0 where
    read : FeeRequest
    update : (fee_type new_rate : String) → (admin_id reason : Option String) → FeeRequest

  unfoldable pub serve_fee : FeeRequest → FeeStore R → FeeStore R
  unfolding get_global_fees update_global_fee
  serve_fee FeeRequest.read s = (get_global_fees s).1
  serve_fee (FeeRequest.update t rate admin reason) s = (update_global_fee t rate admin reason s).1

  unfoldable pub serve_fees : List FeeRequest → FeeStore R → FeeStore R
  unfolding serve_fee
  serve_fees [] s = s
  serve_fees (q ∷ qs) s = serve_fees qs (serve_fee q s)
