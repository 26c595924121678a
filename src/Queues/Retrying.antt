-- ===== src/Queues/Retrying.antt =====
-- Trying again with delays: backend/src/retry/retry-queue.service.ts and retry-config.service.ts. A task works on
-- a state; delays are milliseconds.
use dabdub.Prelude.{
  ℕ, zero, suc, ◌+◌, ◌-◌, ◌*◌, ◌≤◌, ltb, leb, Option, none, some, List, [], ◌∷◌, length, get_elem?,
  if◌then◌else◌, arith,
}
use dabdub.Platform.Actions.{Result, ok, err, Error}

pub record RetryConfig : Type 0 where
  pub max_attempts : ℕ
  pub delays_ms : List ℕ

abbrev pub minute : ℕ
minute = 60_000

abbrev pub hour : ℕ
hour = 60 * minute

-- A number of the environment, or its default.
abbrev pub or_default : {A : Type 0} → A → Option A → A
or_default a none = a
or_default a (some b) = b

-- The four settings; each argument is what the environment has, the delays already read as numbers.
abbrev pub settlement_config : (count : Option ℕ) → (delays : Option (List ℕ)) → RetryConfig
settlement_config count delays = record {
  max_attempts = or_default 3 count;
  delays_ms = or_default (1 * minute ∷ 5 * minute ∷ 30 * minute ∷ []) delays;
}

abbrev pub webhook_config : (count : Option ℕ) → (delays : Option (List ℕ)) → RetryConfig
webhook_config count delays = record {
  max_attempts = or_default 5 count;
  delays_ms = or_default (1 * minute ∷ 5 * minute ∷ 30 * minute ∷ 2 * hour ∷ 12 * hour ∷ []) delays;
}

abbrev pub email_config : (count : Option ℕ) → (delays : Option (List ℕ)) → RetryConfig
email_config count delays = record {
  max_attempts = or_default 1 count;
  delays_ms = or_default (5 * minute ∷ []) delays;
}

abbrev pub stellar_monitor_config : (count : Option ℕ) → (delays : Option (List ℕ)) → RetryConfig
stellar_monitor_config count delays = record {
  max_attempts = or_default 1 count;
  delays_ms = or_default (0 ∷ []) delays;
}

-- `delaysMs[Math.min(attempt, delaysMs.length - 1)]`; `undefined`, which is not above 0, of no delays.
abbrev pub delay_of : List ℕ → (attempt : ℕ) → ℕ
delay_of delays attempt =
    let last = length delays - 1 in
    or_default 0 (get_elem? delays (if leb attempt last then attempt else last))

abbrev pub waited : (delay : ℕ) → List ℕ → List ℕ
waited delay waits = if ltb 0 delay then delay ∷ waits else waits

module _ {S A : Type 0} (task : S → Result A × S) where
  abbrev pub with_wait : (delay : ℕ) → Result A × List ℕ × S → Result A × List ℕ × S
  with_wait delay (r, waits, s) = (r, waited delay waits, s)

  -- One attempt, and what follows a failure.
  abbrev pub attempt_then :
      (failed : Error → S → Result A × List ℕ × S) → Result A × S → Result A × List ℕ × S
  attempt_then failed (ok a, s) = (ok a, [], s)
  attempt_then failed (err e, s) = failed e s

  -- The loop from an attempt on, with the attempts after it; the last failure is thrown on.
  unfoldable pub attempts_from : (more attempt : ℕ) → (delays : List ℕ) → S → Result A × List ℕ × S
  attempts_from zero attempt delays s = attempt_then (λ e s'. (err e, [], s')) (task s)
  attempts_from (suc more) attempt delays s =
      attempt_then
        (λ e s'. with_wait (delay_of delays attempt) (attempts_from more (attempt + 1) delays s'))
        (task s)

  unfoldable pub run_task : RetryConfig → S → Result A × List ℕ × S
  unfolding attempts_from
  run_task config s = attempts_from config.max_attempts 0 config.delays_ms s

  length-waited :
      (delay n : ℕ) (waits : List ℕ) → length waits ≤ n → length (waited delay waits) ≤ suc n
  length-waited delay n waits few = ground arith

  after_attempt :
      (more attempt : ℕ) (delays : List ℕ) (end : Result A × S)
      → ((s : S) → length (attempts_from more (attempt + 1) delays s).1 ≤ more)
      → length
          (attempt_then
            (λ e s'.
              with_wait (delay_of delays attempt) (attempts_from more (attempt + 1) delays s'))
            end).1
        ≤ suc more
  after_attempt more attempt delays (ok a, s) few = omega arith
  after_attempt more attempt delays (err e, s) few =
      length-waited (delay_of delays attempt) more (attempts_from more (attempt + 1) delays s).1
        (few s)

  last_attempt : (end : Result A × S) → length (attempt_then (λ e s'. (err e, [], s')) end).1 ≤ 0
  last_attempt (ok a, s) = omega arith
  last_attempt (err e, s) = omega arith

  -- There are no more waits than retries.
  attempts_from-length :
      (more attempt : ℕ) (delays : List ℕ) (s : S)
      → length (attempts_from more attempt delays s).1 ≤ more
  unfolding attempts_from
  attempts_from-length zero attempt delays s = last_attempt (task s)
  attempts_from-length (suc more) attempt delays s =
      after_attempt more attempt delays (task s) (attempts_from-length more (attempt + 1) delays)
