-- ===== src/Limits/Rate.antt =====
-- `checkApiKeyRateLimit` of backend/src/auth/rate-limit.service.ts. The sorted set of a merchant in
-- Redis is the list of its scores, in ascending order; `expire` drops a set only when every entry has
-- left the window, so it is left out. A request is handled without another in between. Times are
-- seconds since the epoch.
use dabdub.Prelude.{
  ℕ, ◌+◌, ◌-◌, ◌≤◌, ◌<◌, ◌≡◌, ◌↔◌, inl, inr, Bool, true, false, Option, none, some, String, List,
  [], ◌∷◌, ◌++◌, if◌then◌else◌, leb, ltb, length, str_eq, arith, refl, ap, ◌∙◌, sym, subst,
  Bool-cases, length-append,
}

abbrev pub window_seconds : ℕ
window_seconds = 3600

-- `RATE_LIMITS[role] ?? RATE_LIMITS['merchant']`
abbrev pub rate_limit : (role : String) → ℕ
rate_limit role =
    if str_eq role "superadmin" then 10_000 else if str_eq role "admin" then 5_000 else 1_000

pub record RateLimitResult : Type 0 where
  pub allowed : Bool
  pub limit : ℕ
  pub remaining : ℕ
  pub reset_at : ℕ
  pub retry_after : Option ℕ

-- `zremrangebyscore key -inf windowStart`: the scores up to the start of the window are removed.
unfoldable pub remove_old : (now : ℕ) → List ℕ → List ℕ
remove_old now [] = []
remove_old now (t ∷ ts) =
    let rest = remove_old now ts in if leb (t + window_seconds) now then rest else t ∷ rest

-- `zrange key 0 0`, or now for an empty set.
abbrev pub oldest_or : ℕ → List ℕ → ℕ
oldest_or now [] = now
oldest_or now (t ∷ _) = t

-- `zadd` of the current time: no score is later, so it comes last.
abbrev pub add_score : ℕ → List ℕ → List ℕ
add_score now ts = ts ++ now ∷ []

unfoldable pub check_api_key_rate_limit :
    (role : String) → (now : ℕ) → List ℕ → RateLimitResult × List ℕ
unfolding remove_old
check_api_key_rate_limit role now scores =
    let recent = remove_old now scores in
    let limit = rate_limit role in
    if leb limit (length recent)
    then (
      record {
        allowed = false;
        limit = limit;
        remaining = 0;
        reset_at = oldest_or now recent + window_seconds;
        retry_after = some (oldest_or now recent + window_seconds - now);
      },
      recent,
    )
    else (
      record {
        allowed = true;
        limit = limit;
        remaining = limit - length recent - 1;
        reset_at = now + window_seconds;
        retry_after = none;
      },
      add_score now recent,
    )

-- The requests of a merchant, one after another: the times of the allowed ones are added to `log`.
unfoldable pub serve : (role : String) → (times scores log : List ℕ) → List ℕ
unfolding check_api_key_rate_limit
serve role [] scores log = log
serve role (t ∷ ts) scores log =
    let (answer, scores') = check_api_key_rate_limit role t scores in
    serve role ts scores' (if answer.allowed then log ++ t ∷ [] else log)

-- The set in Redis after the requests.
unfoldable pub scores_after : (role : String) → (times scores : List ℕ) → List ℕ
unfolding check_api_key_rate_limit
scores_after role [] scores = scores
scores_after role (t ∷ ts) scores = scores_after role ts (check_api_key_rate_limit role t scores).1

-- How many of the logged times are less than an hour ago.
abbrev pub in_last_hour : (now : ℕ) → (log : List ℕ) → ℕ
in_last_hour now [] = 0
in_last_hour now (t ∷ ts) =
    if ltb now (t + 3600) then in_last_hour now ts + 1 else in_last_hour now ts

-- The times do not go back, from `now` on.
abbrev pub IsOrdered : (now : ℕ) → List ℕ → Type 0
IsOrdered now [] = Unit
IsOrdered now (t ∷ ts) = (now ≤ t) × IsOrdered t ts

-- The last of the times, or `now`.
abbrev pub last_time : (now : ℕ) → List ℕ → ℕ
last_time now [] = now
last_time now (t ∷ ts) = last_time t ts

remove_old-append :
    (now : ℕ) (xs ys : List ℕ) → remove_old now (xs ++ ys) ≡ remove_old now xs ++ remove_old now ys
unfolding remove_old
remove_old-append now [] ys = refl
remove_old-append now (x ∷ xs) ys =
    let rest = remove_old-append now xs ys in
    elim (Bool-cases (leb (x + window_seconds) now)) [
      | inl old ↦ ground arith
      | inr new ↦ ground arith
    ]

remove_old-new :
    (now x : ℕ) (xs : List ℕ)
    → leb (x + window_seconds) now ≡ false
    → remove_old now (x ∷ xs) ≡ x ∷ remove_old now xs
unfolding remove_old
remove_old-new now x xs new = ground arith

remove_old-twice :
    (now later : ℕ) (xs : List ℕ)
    → now ≤ later
    → remove_old later (remove_old now xs) ≡ remove_old later xs
unfolding remove_old
remove_old-twice now later [] on = refl
remove_old-twice now later (x ∷ xs) on =
    let rest = remove_old-twice now later xs on in
    elim (Bool-cases (leb (x + window_seconds) now)) [
      | inl old ↦ ground arith
      | inr new ↦
          let same : remove_old later (x ∷ remove_old now xs) ≡ remove_old later (x ∷ xs) =
            ground arith in
          ap (remove_old later) (remove_old-new now x xs new) ∙ same
    ]

length-remove_old :
    (now later : ℕ) (xs : List ℕ)
    → now ≤ later
    → length (remove_old later xs) ≤ length (remove_old now xs)
unfolding remove_old
length-remove_old now later [] on = omega arith
length-remove_old now later (x ∷ xs) on =
    let rest = length-remove_old now later xs on in ground arith

-- From `now` on, the scores tell as much of the last hour as the log does.
abbrev pub Represents : (now : ℕ) → (scores log : List ℕ) → Type 0
Represents now scores log =
    (later : ℕ) → now ≤ later → remove_old later scores ≡ remove_old later log

module _ (role : String) (t : ℕ) (scores log : List ℕ) where
  abbrev pub answer : RateLimitResult
  answer = (check_api_key_rate_limit role t scores).0

  abbrev pub log_after : List ℕ
  log_after = if answer.allowed then log ++ t ∷ [] else log

  -- The scores after a request represent the log after it, and the last hour of that is within the
  -- limit.
  check-Represents :
      (now : ℕ)
      → now ≤ t
      → Represents now scores log
      → length (remove_old now log) ≤ rate_limit role
      → Represents t (check_api_key_rate_limit role t scores).1 log_after
        × (length (remove_old t log_after) ≤ rate_limit role)
  unfolding check_api_key_rate_limit
  check-Represents now on same few =
      elim (Bool-cases (leb (rate_limit role) (length (remove_old t scores)))) [
        | inl full ↦
            let set : (check_api_key_rate_limit role t scores).1 ≡ remove_old t scores =
              ground arith in
            let logged : log_after ≡ log = ground arith in
            (
              λ later on'.
                  ap (remove_old later) set
                  ∙ remove_old-twice t later scores on'
                  ∙ same later (omega (arith, on, on'))
                  ∙ sym (ap (remove_old later) logged),
              subst (λ (xs : List ℕ). length (remove_old t xs) ≤ rate_limit role) (sym logged)
                  (omega (arith, few, length-remove_old now t log on)),
            )
        | inr room ↦
            let set : (check_api_key_rate_limit role t scores).1 ≡ remove_old t scores ++ t ∷ [] =
              ground arith in
            let logged : log_after ≡ log ++ t ∷ [] = ground arith in
            let size : length (remove_old t scores) ≡ length (remove_old t log) =
              ap length (same t on) in
            let grown : length (remove_old t (log ++ t ∷ []))
                ≡ length (remove_old t log) + length (remove_old t (t ∷ [])) =
              ap length (remove_old-append t log (t ∷ []))
              ∙ length-append (remove_old t log) (remove_old t (t ∷ [])) in
            let one : length (remove_old t (t ∷ [])) ≤ 1 = at_most_one in
            (
              λ later on'.
                  ap (remove_old later) set
                  ∙ remove_old-append later (remove_old t scores) (t ∷ [])
                  ∙ ap (λ xs. xs ++ remove_old later (t ∷ []))
                      (remove_old-twice t later scores on' ∙ same later (omega (arith, on, on')))
                  ∙ sym (remove_old-append later log (t ∷ []))
                  ∙ sym (ap (remove_old later) logged),
              subst (λ (xs : List ℕ). length (remove_old t xs) ≤ rate_limit role) (sym logged)
                  (ground arith),
            )
      ]
    where
      at_most_one : length (remove_old t (t ∷ [])) ≤ 1
      at_most_one = ground arith

length-remove_old-in_last_hour :
    (t : ℕ) (log : List ℕ) → length (remove_old t log) ≡ in_last_hour t log
unfolding remove_old
length-remove_old-in_last_hour t [] = refl
length-remove_old-in_last_hour t (x ∷ xs) =
    let rest = length-remove_old-in_last_hour t xs in ground arith

serve-few :
    (role : String) (now : ℕ) (times scores log : List ℕ)
    → IsOrdered now times
    → Represents now scores log
    → length (remove_old now log) ≤ rate_limit role
    → length (remove_old (last_time now times) (serve role times scores log)) ≤ rate_limit role
unfolding serve
serve-few role now [] scores log ordered same few = few
serve-few role now (t ∷ ts) scores log ordered same few =
    let (same', few') = check-Represents role t scores log now ordered.0 same few in
    serve-few role t ts (check_api_key_rate_limit role t scores).1 (log_after role t scores log)
      ordered.1 same' few'

-- For requests in the order of time: if the scores represent the log of the requests allowed so far,
-- and the last 3,600 seconds of it are within the role's limit, as they are at first, when both are
-- empty, then after the requests the last 3,600 seconds of the log are still within the limit.
pub serve-bounded :
    (role : String) (now : ℕ) (times scores log : List ℕ)
    → IsOrdered now times
    → Represents now scores log
    → in_last_hour now log ≤ rate_limit role
    → in_last_hour (last_time now times) (serve role times scores log) ≤ rate_limit role
serve-bounded role now times scores log ordered same few =
    let before = length-remove_old-in_last_hour now log in
    let end = last_time now times in
    let after = length-remove_old-in_last_hour end (serve role times scores log) in
    let bound = serve-few role now times scores log ordered same (omega (arith, before, few)) in
    omega (arith, after, bound)

serve-Represents :
    (role : String) (now : ℕ) (times scores log : List ℕ)
    → IsOrdered now times
    → Represents now scores log
    → length (remove_old now log) ≤ rate_limit role
    → Represents
        (last_time now times)
        (scores_after role times scores)
        (serve role times scores log)
unfolding serve scores_after
serve-Represents role now [] scores log ordered same few = same
serve-Represents role now (t ∷ ts) scores log ordered same few =
    let (same', few') = check-Represents role t scores log now ordered.0 same few in
    serve-Represents role t ts (check_api_key_rate_limit role t scores).1
      (log_after role t scores log) ordered.1 same' few'

-- After any requests of a merchant in the order of time, from an empty set on, the next request is
-- allowed exactly when fewer requests than the role's limit have been allowed in the 3,600 seconds
-- before it: 10,000 for a superadmin, 5,000 for an admin and 1,000 for any other.
pub check_api_key_rate_limit_iff :
    (role : String) (times : List ℕ) (t : ℕ)
    → IsOrdered 0 times
    → last_time 0 times ≤ t
    → let log = serve role times [] [] in
      let limit : ℕ =
        if str_eq role "superadmin" then 10_000 else if str_eq role "admin" then 5_000 else 1_000 in
      ((check_api_key_rate_limit role t (scores_after role times [])).0.allowed ≡ true)
      ↔ (in_last_hour t log < limit)
unfolding check_api_key_rate_limit
check_api_key_rate_limit_iff role times t ordered on =
    let scores = scores_after role times [] in
    let log = serve role times [] [] in
    let same = serve-Represents role 0 times [] [] ordered (λ later _. refl) (omega arith) in
    let size : length (remove_old t scores) ≡ in_last_hour t log =
      ap length (same t on) ∙ length-remove_old-in_last_hour t log in
    ground arith
