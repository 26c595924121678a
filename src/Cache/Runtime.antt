-- ===== src/Cache/Runtime.antt =====
-- `RuntimeConfigService` (backend/src/runtime-config/runtime-config.service.ts) over the cache. The rows of its
-- table are a list, and the entry that `set` leaves in the audit log a list of changes. A value that
-- `JSON.stringify` refuses does not exist here.
use Prim.Native.String
use dabdub.Prelude.{
  Bool, true, not, Option, none, some, String, List, [], ◌∷◌, if◌then◌else◌, str_eq, truthy, ◌≡◌,
  refl,
}
use dabdub.Cache.Redis.{Redis, RedisLaws}
use dabdub.Cache.Envelope.{Codec, CodecLaws}
use dabdub.Cache.Service.{get, set, del}
use dabdub.Cache.Laws.{get-del}

pub record RuntimeConfig (A : Type 0) : Type 0 where
  pub key : String
  pub value : A
  pub updated_by : String
  pub description : Option String

pub record ConfigStore (R A : Type 0) : Type 0 where
  pub cache : R
  pub rows : List (RuntimeConfig A)
  pub audit_log : List (String × String × A)

-- `findOne({ where: { key } })`
unfoldable pub find_config :
    {A : Type 0} → (key : String) → List (RuntimeConfig A) → Option (RuntimeConfig A)
find_config key [] = none
find_config key (c ∷ cs) = if str_eq c.key key then some c else find_config key cs

abbrev pub described : {A : Type 0} → Option String → RuntimeConfig A → RuntimeConfig A
described none config = config
described (some d) config = record config { description = some d }

-- The row as it is saved.
abbrev pub changed_config :
    {A : Type 0}
    → (key : String) → A
    → (admin_id : String) → (description : Option String) → Option (RuntimeConfig A)
    → RuntimeConfig A
changed_config key value admin_id description none = record {
  key = key;
  value = value;
  updated_by = admin_id;
  description = description;
}
changed_config key value admin_id description (some config) =
    described (truthy description) (record config { value = value; updated_by = admin_id })

unfoldable pub save_config :
    {A : Type 0} → RuntimeConfig A → List (RuntimeConfig A) → List (RuntimeConfig A)
save_config config [] = config ∷ []
save_config config (c ∷ cs) =
    let rest = save_config config cs in if str_eq c.key config.key then config ∷ cs else c ∷ rest

module _ {R A : Type 0} (redis : Redis R) (codec : Codec A) (ns : String) (is_null : A → Bool) where
  abbrev pub cache_key : (key : String) → String
  cache_key key = String.◌++◌ "config:" key

  -- The look-up in the database: the value goes to the cache. The number in the place of the options has no
  -- `ttlSeconds`.
  unfoldable pub get_stored :
      (key : String) → (default : Option A) → ConfigStore R A → Option A × ConfigStore R A
  unfolding find_config set
  get_stored key default s = elim (find_config key s.rows) [
    | some config ↦ (
      some config.value,
      record s { cache = set redis codec ns (cache_key key) config.value none s.cache },
    )
    | none ↦ (default, s)
  ]

  -- `cached !== null`, which `undefined` is not either.
  abbrev pub is_not_null : Option A → Bool
  is_not_null none = true
  is_not_null (some value) = not (is_null value)

  unfoldable pub get_config :
      (key : String) → (default : Option A) → ConfigStore R A → Option A × ConfigStore R A
  unfolding get get_stored
  get_config key default s =
      let cached = get redis codec ns (cache_key key) s.cache in
      if is_not_null cached then (cached, s) else get_stored key default s

  unfoldable pub set_config :
      (key : String)
      → A
      → (admin_id : String) → (description : Option String) → ConfigStore R A
      → RuntimeConfig A × ConfigStore R A
  unfolding find_config save_config del
  set_config key value admin_id description s =
      let config = changed_config key value admin_id description (find_config key s.rows) in
      (
        config,
        record {
          cache = del redis codec ns (cache_key key) s.cache;
          rows = save_config config s.rows;
          audit_log = (admin_id, key, value) ∷ s.audit_log;
        },
      )

  module _ (stored : RedisLaws redis) (coded : CodecLaws codec) where
    -- After any value has been set, reading the key gives nothing, neither that value nor the default, and
    -- leaves the store as it is: the database is never asked.
    pub get_config-set_config :
        (key : String) (value : A) (admin_id : String) (description : Option String)
        (default : Option A) (s : ConfigStore R A)
        → get_config key default (set_config key value admin_id description s).1
          ≡ (none, (set_config key value admin_id description s).1)
    unfolding get_config set_config
    get_config-set_config key value admin_id description default s =
        rw (get-del redis codec ns stored coded (cache_key key) s.cache) refl
