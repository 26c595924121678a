-- ===== src/Cache/Tests.antt =====
-- Runs of the cache, and its theorems at concrete inputs.
use dabdub.Prelude.{
  ℕ, suc, ◌≡◌, refl, false, Option, none, some, String, List, [], ◌∷◌, arith, ap, ◌∙◌,
}
use dabdub.Platform.Actions.{Result, ok}
use dabdub.Cache.Envelope.{Codec, CodecLaws}
use dabdub.Cache.Service.{get}
use dabdub.Cache.Samples.{
  Table, empty_table, table_redis, table_redis_laws, plain_codec, plain_codec_laws, put, read,
  read-put, marks, length_of, length_of-marks,
}
use dabdub.Cache.Laws.{Write, write_all, write_tables, get-write_all}
use dabdub.Cache.Runtime.{ConfigStore, get_config, set_config, get_config-set_config}
use dabdub.Cache.Idempotency.{Reply, intercept, intercept-intercept}

abbrev text_codec : Codec String
text_codec = plain_codec (λ s. s) (λ s. some s)

text_laws : CodecLaws text_codec
text_laws = plain_codec_laws (λ s. s) (λ s. some s) (λ s. refl)

abbrev writes : List (Write String)
writes =
    Write.set_key "rate" "1.5" (some 30) ∷ Write.set_key "fees" "2" none ∷ Write.del_key "rate" ∷ []

-- The last of the writes counts.
rate_gone : write_tables writes (λ k. none) "rate" ≡ none
unfolding write_tables
rate_gone = refl

fees_kept : write_tables writes (λ k. none) "fees" ≡ some "2"
unfolding write_tables
fees_kept = refl

nothing_yet : (key : String) → get table_redis text_codec "test:cache:" key empty_table ≡ none
unfolding get
nothing_yet key = refl

get-write_all_example :
    get table_redis text_codec "test:cache:" "fees"
      (write_all table_redis text_codec "test:cache:" writes empty_table)
    ≡ write_tables writes (λ k. none) "fees"
get-write_all_example =
    get-write_all table_redis text_codec "test:cache:" table_redis_laws text_laws writes empty_table
      (λ k. none) (omega arith, (omega arith, (tt, tt))) nothing_yet "fees"

abbrev no_configs : ConfigStore Table String
no_configs = record { cache = empty_table; rows = []; audit_log = [] }

get_config-set_config_example :
    get_config table_redis text_codec "test:cache:"
      (λ v. false)
      "fee"
      (some "1.5")
      (set_config table_redis text_codec "test:cache:"
        (λ v. false)
        "fee"
        "2"
        "m1"
        none
        no_configs).1
    ≡ (
      none,
      (set_config table_redis text_codec "test:cache:"
          (λ v. false)
          "fee"
          "2"
          "m1"
          none
          no_configs).1,
    )
get_config-set_config_example =
    get_config-set_config table_redis text_codec "test:cache:" (λ v. false) table_redis_laws
      text_laws "fee" "2" "m1" none (some "1.5") no_configs

-- A reply as a text: as many marks as its status, then the body.
write_reply : Reply String → String
write_reply r = put (marks r.status) r.body

reply_of : Option (String × String) → Option (Reply String)
reply_of none = none
reply_of (some (m, body)) = some (record { status = length_of m; body = body })

read_reply : String → Option (Reply String)
read_reply s = reply_of (read s)

reply_back : (r : Reply String) → read_reply (write_reply r) ≡ some r
unfolding read_reply write_reply reply_of
reply_back r =
    ap reply_of (read-put (marks r.status) r.body)
    ∙ ap (λ n. some (record { status = n; body = r.body })) (length_of-marks r.status)

abbrev reply_codec : Codec (Reply String)
reply_codec = plain_codec write_reply read_reply

-- A handler that creates one more payment.
abbrev create_one : ℕ → Result (Reply String) × ℕ
create_one n = (ok (record { status = 201; body = "p1" }), suc n)

created_once :
    (intercept table_redis reply_codec "test:cache:" (some "k1") create_one (empty_table, 4)).0
    ≡ ok (record { status = 201; body = "p1" })
unfolding intercept
created_once = refl

intercept-intercept_example :
    let (_, r', s') =
      intercept table_redis reply_codec "test:cache:" (some "k1") create_one (empty_table, 4) in
    intercept table_redis reply_codec "test:cache:" (some "k1") create_one (r', s')
    ≡ (ok (record { status = 201; body = "p1" }), r', s')
intercept-intercept_example =
    intercept-intercept table_redis reply_codec "test:cache:" table_redis_laws
      (plain_codec_laws write_reply read_reply reply_back) "k1" create_one create_one empty_table 4
      (record { status = 201; body = "p1" }) refl created_once
