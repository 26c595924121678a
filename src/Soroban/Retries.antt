-- ===== src/Soroban/Retries.antt =====
-- `withRetry` of backend/src/soroban/soroban.service.ts. An operation works on a state, the network's; the waits
-- between attempts are milliseconds, in their order.
use Prim.Native.String
use dabdub.Prelude.{
  ℕ, zero, suc, ◌+◌, ◌-◌, ◌*◌, ◌^◌, ◌==◌, Bool, true, false, ◌||◌, not, String, List, [], ◌∷◌,
  if◌then◌else◌, ◌≡◌, refl, ap, ◌∙◌,
}
use dabdub.Soroban.Errors.{RpcError, HttpClass, is_retryable}

pub data Outcome (A : Type 0) : Type 0 where
  returned : A → Outcome A
  thrown : RpcError → Outcome A

abbrev pub max_attempts : ℕ
max_attempts = 3

abbrev pub delay_ms : (attempt : ℕ) → ℕ
delay_ms attempt = 250 * 2 ^ (attempt - 1)

module _ {S A : Type 0} (operation : S → Outcome A × S) where
  abbrev pub after_wait : (delay : ℕ) → Outcome A × List ℕ × S → Outcome A × List ℕ × S
  after_wait delay (outcome, waits, s) = (outcome, delay ∷ waits, s)

  -- One round of the loop, with what the next one gives.
  abbrev pub retry_round :
      (attempt : ℕ) → (S → Outcome A × List ℕ × S) → Outcome A × S → Outcome A × List ℕ × S
  retry_round attempt later (Outcome.returned a, s) = (Outcome.returned a, [], s)
  retry_round attempt later (Outcome.thrown e, s) =
      if attempt == max_attempts || not (is_retryable e)
      then (Outcome.thrown e, [], s)
      else after_wait (delay_ms attempt) (later s)

  -- The loop, on the attempts that are left; what stands after it is thrown when there are none.
  unfoldable pub retry_loop : (action : String) → (left attempt : ℕ) → S → Outcome A × List ℕ × S
  unfolding is_retryable
  retry_loop action zero attempt s = (
    Outcome.thrown (
        RpcError.http_exception HttpClass.service_unavailable
          (String.◌++◌ "Soroban RPC " (String.◌++◌ action " failed after retries"))),
    [],
    s,
  )
  retry_loop action (suc left) attempt s =
      retry_round attempt (retry_loop action left (attempt + 1)) (operation s)

  unfoldable pub with_retry : (action : String) → S → Outcome A × List ℕ × S
  unfolding retry_loop
  with_retry action s = retry_loop action max_attempts 1 s

  abbrev is_settled : Outcome A → Bool
  is_settled (Outcome.returned a) = true
  is_settled (Outcome.thrown e) = not (is_retryable e)

  -- Three attempts at most, each after the first only when the one before failed with an error worth it.
  abbrev pub three_attempts : S → Outcome A × List ℕ × S
  three_attempts s =
      let (first, s1) = operation s in
      let (second, s2) = operation s1 in
      let (third, s3) = operation s2 in
      if is_settled first
      then (first, [], s1)
      else if is_settled second
      then (second, 250 ∷ [], s2)
      else (third, 250 ∷ 500 ∷ [], s3)

  round_lem :
      (attempt : ℕ) (later : S → Outcome A × List ℕ × S) (end : Outcome A × S)
      → (attempt == max_attempts) ≡ false
      → retry_round attempt later end ≡ (
          if is_settled end.0
          then (end.0, [], end.1)
          else after_wait (delay_ms attempt) (later end.1))
  round_lem attempt later (Outcome.returned a, s) early = refl
  round_lem attempt later (Outcome.thrown e, s) early = rw early (go (not (is_retryable e)))
    where
      go :
          (c : Bool)
          → (if false || c
              then (Outcome.thrown e, [], s)
              else after_wait (delay_ms attempt) (later s))
            ≡ (if c then (Outcome.thrown e, [], s) else after_wait (delay_ms attempt) (later s))
      go true = refl
      go false = refl

  last_round :
      (later : S → Outcome A × List ℕ × S) (end : Outcome A × S)
      → retry_round 3 later end ≡ (end.0, [], end.1)
  last_round later (Outcome.returned a, s) = refl
  last_round later (Outcome.thrown e, s) = refl

  after_wait-if :
      (c : Bool) (x y : Outcome A × List ℕ × S)
      → after_wait 250 (if c then x else y) ≡ (if c then after_wait 250 x else after_wait 250 y)
  after_wait-if true x y = refl
  after_wait-if false x y = refl

  -- An operation is attempted at most three times, with waits of 250 and 500 milliseconds between them. The first
  -- attempt that returns, or throws an error that is not worth a retry, decides, and else the third,
  -- whatever it does. So what stands after the loop is never thrown.
  pub with_retry_lem : (action : String) (s : S) → with_retry action s ≡ three_attempts s
  unfolding with_retry retry_loop
  with_retry_lem action s =
      let (first, s1) = operation s in
      let (second, s2) = operation s1 in
      let (third, s3) = operation s2 in
      let loop = retry_loop action in
      round_lem 1 (loop 2 2) (operation s) refl
      ∙ ap (λ x. if is_settled first then (first, [], s1) else after_wait 250 x)
          (round_lem 2 (loop 1 3) (operation s1) refl
            ∙ ap (λ x. if is_settled second then (second, [], s2) else after_wait 500 x)
                (last_round (loop 0 4) (operation s2)))
      ∙ ap (λ x. if is_settled first then (first, [], s1) else x)
          (after_wait-if (is_settled second) (second, [], s2) (third, 500 ∷ [], s3))
