-- ===== src/Auth/Laws.antt =====
-- Sessions over time: what `validate` of backend/src/auth/strategies/jwt.strategy.ts answers after a logout, and
-- when it is asked again.
use Prim.Native.String
use text.Mathlib.TextLemmas.{length-append}
use dabdub.Prelude.{
  lt→ltb, ℕ, ◌+◌, ◌<◌, Bool, true, false, Option, none, some, String, List, truthy, ◌≡◌, ◌≢◌, refl,
  sym, ap, ◌∙◌, subst, arith, Option-cases, inl, inr, if◌then◌else◌,
}
use dabdub.Platform.Actions.{Result, ok, err, Error}
use dabdub.Admin.Store.{Merchant, find_merchant}
use dabdub.Cache.Redis.{Redis, RedisLaws}
use dabdub.Cache.Envelope.{Codec, CodecLaws}
use dabdub.Cache.Service.{get, set}
use dabdub.Cache.Laws.{get-set, get_other-set}
use dabdub.Auth.{
  Cached, Session, TokenPayload, token_id, is_truthy, blacklist_key, session_key, seconds_left,
  logout, cache_session, from_database, cached_or_database, validate_id, validate, session_of,
}

module _ {R : Type 0} (redis : Redis R) (codec : Codec Cached) (ns : String) where
  module _ (stored : RedisLaws redis) (coded : CodecLaws codec) where
    -- After a logout with a time to live above 0, and while it has not expired, every token with that id is
    -- refused, whatever the table of merchants and the rest of the cache hold. A token without an id goes by its
    -- merchant's, so this holds of all of the merchant's tokens, later ones among them.
    validate-logout :
        (payload : TokenPayload) (ttl_seconds now : ℕ) (ms : List Merchant) (r : R)
        → 0 < ttl_seconds
        → truthy (some (token_id payload)) ≡ some (token_id payload)
        → let ended = logout redis codec ns (token_id payload) ttl_seconds r in
          validate redis codec ns payload now ms ended
          ≡ (err (Error.unauthorized "Session revoked"), ended)
    unfolding logout validate
    validate-logout payload ttl_seconds now ms r positive named = rw named (
        rw
          (get-set redis codec ns stored coded (String.◌++◌ "session:blacklist:" (token_id payload))
            (Cached.mark true) (some ttl_seconds) r positive)
          refl)

    -- What is cached for a session leaves the mark alone.
    other_key : (jti : String) → String.◌++◌ "session:blacklist:" jti ≢ String.◌++◌ "session:" jti
    other_key jti same =
        let long : String.count (String.◌++◌ "session:blacklist:" jti) ≡ 18 + String.count jti =
          length-append "session:blacklist:" jti in
        let short : String.count (String.◌++◌ "session:" jti) ≡ 8 + String.count jti =
          length-append "session:" jti in
        absurd (omega (arith, ap String.count same, long, short))

    -- A session that was just cached, found again.
    cached_again :
        (jti : String) (later_payload : TokenPayload) (exp : Option ℕ) (at now later : ℕ)
        (later_ms : List Merchant) (r : R) (s : Session)
        → exp ≡ some at
        → 0 < seconds_left at now
        → is_truthy (get redis codec ns (blacklist_key redis codec ns jti) r) ≡ false
        → let r' = cache_session redis codec ns (some jti) exp now s r in
          validate_id redis codec ns (some jti) later_payload later later_ms r'
          ≡ (ok (Cached.session s), r')
    cached_again jti later_payload exp at now later later_ms r s timed left clear =
        let kept : cache_session redis codec ns (some jti) exp now s r
            ≡ set redis codec ns (session_key redis codec ns jti) (Cached.session s)
                (some (seconds_left at now)) r =
          rw timed (
            rw (lt→ltb 0 at (omega (arith, left)))
              (rw (lt→ltb 0 (seconds_left at now) left) refl)) in
        subst
          (λ r'.
            validate_id redis codec ns (some jti) later_payload later later_ms r'
            ≡ (ok (Cached.session s), r'))
          (sym kept)
          (rw
            (get_other-set redis codec ns stored coded (blacklist_key redis codec ns jti)
              (session_key redis codec ns jti) (Cached.session s) (some (seconds_left at now)) r
              (other_key jti))
            (rw clear (
              rw
                (get-set redis codec ns stored coded (session_key redis codec ns jti)
                  (Cached.session s) (some (seconds_left at now)) r left)
                refl)))

    database_again :
        (jti : String) (payload later_payload : TokenPayload) (at now later : ℕ)
        (ms later_ms : List Merchant) (r : R) (s : Cached)
        → payload.exp ≡ some at
        → 0 < seconds_left at now
        → is_truthy (get redis codec ns (blacklist_key redis codec ns jti) r) ≡ false
        → (from_database redis codec ns (some jti) payload now ms r).0 ≡ ok s
        → let r' = (from_database redis codec ns (some jti) payload now ms r).1 in
          validate_id redis codec ns (some jti) later_payload later later_ms r' ≡ (ok s, r')
    database_again jti payload later_payload at now later ms later_ms r s timed left clear done =
        elim (Option-cases (find_merchant payload.sub ms)) [
          | inl e ↦ absurd (ground (arith, e, done))
          | inr (m, e) ↦
              let user = Cached.session (session_of m) in
              let kept = cache_session redis codec ns (some jti) payload.exp now (session_of m) r in
              let read : from_database redis codec ns (some jti) payload now ms r
                  ≡ (ok user, kept) =
                rw (e, from_database) refl in
              subst
                (λ (x : Result Cached × R).
                  x.0 ≡ ok s
                  → validate_id redis codec ns (some jti) later_payload later later_ms x.1
                    ≡ (ok s, x.1))
                (sym read)
                (λ is_s.
                  cached_again jti later_payload payload.exp at now later later_ms r (session_of m)
                    timed left clear
                  ∙ ap (λ x. (x, kept)) is_s)
                done
        ]

    again :
        (jti : String) (payload later_payload : TokenPayload) (at now later : ℕ)
        (ms later_ms : List Merchant) (r : R) (s : Cached) (o : Option Cached)
        → payload.exp ≡ some at
        → 0 < seconds_left at now
        → is_truthy (get redis codec ns (blacklist_key redis codec ns jti) r) ≡ false
        → get redis codec ns (session_key redis codec ns jti) r ≡ o
        → (cached_or_database redis codec ns jti o payload now ms r).0 ≡ ok s
        → let r' = (cached_or_database redis codec ns jti o payload now ms r).1 in
          validate_id redis codec ns (some jti) later_payload later later_ms r' ≡ (ok s, r')
    again jti payload later_payload at now later ms later_ms r s none timed left clear found done =
        database_again jti payload later_payload at now later ms later_ms r s timed left clear done
    again jti payload later_payload at now later ms later_ms r s (some (Cached.mark false)) timed
          left clear found done =
        database_again jti payload later_payload at now later ms later_ms r s timed left clear done
    again jti payload later_payload at now later ms later_ms r s (some (Cached.mark true)) timed
          left clear found done =
        rw clear (rw found (ap (λ x. (x, r)) done))
    again jti payload later_payload at now later ms later_ms r s (some (Cached.session t)) timed
          left clear found done =
        rw clear (rw found (ap (λ x. (x, r)) done))

    by_id :
        (jti : String) (payload later_payload : TokenPayload) (at now later : ℕ)
        (ms later_ms : List Merchant) (r : R) (s : Cached)
        → payload.exp ≡ some at
        → 0 < seconds_left at now
        → (validate_id redis codec ns (some jti) payload now ms r).0 ≡ ok s
        → let r' = (validate_id redis codec ns (some jti) payload now ms r).1 in
          validate_id redis codec ns (some jti) later_payload later later_ms r' ≡ (ok s, r')
    by_id jti payload later_payload at now later ms later_ms r s timed left done =
        go (is_truthy (get redis codec ns (blacklist_key redis codec ns jti) r)) refl done
      where
        go :
            (c : Bool)
            → is_truthy (get redis codec ns (blacklist_key redis codec ns jti) r) ≡ c
            → (if c
                then (err (Error.unauthorized "Session revoked"), r)
                else cached_or_database redis codec ns jti
                    (get redis codec ns (session_key redis codec ns jti) r)
                    payload
                    now
                    ms
                    r).0
              ≡ ok s
            → let r' =
                (if c
                  then (err (Error.unauthorized "Session revoked"), r)
                  else cached_or_database redis codec ns jti
                      (get redis codec ns (session_key redis codec ns jti) r)
                      payload
                      now
                      ms
                      r).1 in
              validate_id redis codec ns (some jti) later_payload later later_ms r' ≡ (ok s, r')
        go true clear done = absurd (ground arith)
        go false clear done =
            again jti payload later_payload at now later ms later_ms r s
              (get redis codec ns (session_key redis codec ns jti) r) timed left clear refl done

    -- A token that has at least a second left and was accepted is accepted again, with the same user, from then
    -- on, whatever has become of the merchant's row: also when it was deleted, suspended or given
    -- another role. This holds of any token with the same id, while nothing else is written to the cache
    -- and nothing in it expires.
    pub validate-validate :
        (payload later_payload : TokenPayload) (at now later : ℕ) (ms later_ms : List Merchant)
        (r : R) (user : Cached)
        → payload.exp ≡ some at
        → 0 < seconds_left at now
        → truthy (some (token_id payload)) ≡ some (token_id payload)
        → token_id later_payload ≡ token_id payload
        → (validate redis codec ns payload now ms r).0 ≡ ok user
        → let r' = (validate redis codec ns payload now ms r).1 in
          validate redis codec ns later_payload later later_ms r' ≡ (ok user, r')
    unfolding validate
    validate-validate payload later_payload at now later ms later_ms r user timed left named same
          done =
        let later_named = ap (λ t. truthy (some t)) same ∙ named in
        subst
          (λ (o : Option String).
            (validate_id redis codec ns o payload now ms r).0 ≡ ok user
            → let r' = (validate_id redis codec ns o payload now ms r).1 in
              validate_id redis codec ns (truthy (some (token_id later_payload))) later_payload
                later later_ms r'
              ≡ (ok user, r'))
          (sym named)
          (λ accepted.
            ap
              (λ o.
                validate_id redis codec ns o later_payload later later_ms
                  (validate_id redis codec ns (some (token_id payload)) payload now ms r).1)
              later_named
            ∙ by_id (token_id payload) payload later_payload at now later ms later_ms r user timed
                left accepted)
          done
