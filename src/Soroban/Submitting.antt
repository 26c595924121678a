-- ===== src/Soroban/Submitting.antt =====
-- How a submission ends: `submitTx` of backend/src/soroban/soroban.service.ts.
use Prim.Native.String
use dabdub.Prelude.{
  Bool, true, false, Option, none, some, String, if◌then◌else◌, ◌≡◌, refl, ap, subst, ◌⊎◌, inl, inr,
  arith, truthy,
}
use dabdub.Soroban.Errors.{RpcError, HttpClass, is_retryable, translate_rpc_error}
use dabdub.Soroban.Retries.{Outcome}
use dabdub.Soroban.Transactions.{
  Response, RpcClient, Sdk, SorobanConfig, SorobanState, Calls, ◌>>=◌, give, or_else, default_to,
  translated, has_failed, final_status, require_hash, check_status, poll, after_submission,
  send_and_poll, signed, submit_tx, retried,
}

-- An exception of the service's own, which the framework answers with its status.
abbrev pub IsHttp : RpcError → Type 0
IsHttp e = (class : HttpClass) × (message : String) × (e ≡ RpcError.http_exception class message)

if-IsHttp :
    (c : Bool) (a b : HttpClass) (x y : String)
    → IsHttp (if c then RpcError.http_exception a x else RpcError.http_exception b y)
if-IsHttp true a b x y = (a, x, refl)
if-IsHttp false a b x y = (b, y, refl)

translate_rpc_error-IsHttp :
    (action : String) (e : RpcError) → IsHttp (translate_rpc_error action e)
unfolding translate_rpc_error
translate_rpc_error-IsHttp action (RpcError.http_exception class message) = (class, message, refl)
translate_rpc_error-IsHttp action (RpcError.client_error status message) =
    if-IsHttp (is_retryable (RpcError.client_error status message)) _ _ _ _

value_or : {A : Type 0} → A → Outcome A → A
value_or a (Outcome.returned b) = b
value_or a (Outcome.thrown e) = a

returned_inj : {A : Type 0} {a b : A} → Outcome.returned a ≡ Outcome.returned b → a ≡ b
unfolding value_or
returned_inj {A} {a} e = ap (value_or a) e

-- What returns in the end came from a call that returned.
bind_returned :
    {N A B : Type 0} (m : Calls N A) (f : A → Calls N B) (s : SorobanState N) (b : B)
    → ((m >>= f) s).0 ≡ Outcome.returned b
    → (a : A) × (s' : SorobanState N) × ((f a s').0 ≡ Outcome.returned b)
bind_returned {N} {A} {B} m f s b e = go (m s) e
  where
    go :
        (end : Outcome A × SorobanState N)
        → (let (o, s') = end in
            elim o as (λ _. Outcome B × SorobanState N) [
              | Outcome.returned a ↦ f a s'
              | Outcome.thrown x ↦ (Outcome.thrown x, s')
            ]).0
          ≡ Outcome.returned b
        → (a : A) × (s' : SorobanState N) × ((f a s').0 ≡ Outcome.returned b)
    go (Outcome.returned a, s') e = (a, s', e)
    go (Outcome.thrown x, s') e = absurd (ground arith)

module _ {N Tx Account Simulation : Type 0} (rpc : RpcClient N Tx Account Simulation)
    (sdk : Sdk Tx Account Simulation) (config : SorobanConfig) where
  check_status-accepted :
      (submission response : Response) (final : Option Response) (s : SorobanState N)
      → (check_status rpc sdk config submission final s).0 ≡ Outcome.returned response
      → has_failed response.status ≡ false
  check_status-accepted submission response final s e =
      go (has_failed (final_status final submission)) refl e
    where
      fine :
          (final : Option Response)
          → has_failed (final_status final submission) ≡ false
          → has_failed (default_to submission final).status ≡ false
      fine none c = c
      fine (some f) c = own f.status c
        where
          own :
              (status : Option String)
              → has_failed (or_else status submission.status) ≡ false
              → has_failed status ≡ false
          own none c = refl
          own (some text) c = c

      go :
          (c : Bool)
          → has_failed (final_status final submission) ≡ c
          → ((if c
                then give (
                    Outcome.thrown (
                      RpcError.http_exception HttpClass.bad_request (
                        String.◌++◌ "Soroban transaction failed: "
                          (sdk.describe_failure (default_to submission final)))))
                else give (Outcome.returned (default_to submission final)))
              s).0
            ≡ Outcome.returned response
          → has_failed response.status ≡ false
      go true c e = absurd (ground arith)
      go false c e =
          subst (λ (r : Response). has_failed r.status ≡ false) (returned_inj e) (fine final c)

  send_and_poll-accepted :
      (tx : Tx) (s : SorobanState N) (response : Response)
      → (send_and_poll rpc sdk config tx s).0 ≡ Outcome.returned response
      → has_failed response.status ≡ false
  send_and_poll-accepted tx s response e =
      let (submission, s1, e1) =
        bind_returned (retried (rpc.send_transaction tx) "submit transaction")
          (after_submission rpc sdk config) s response e in
      let (hash, s2, e2) =
        bind_returned (require_hash (truthy submission.hash)) (poll rpc sdk config submission) s1
          response e1 in
      let (final, s3, e3) =
        bind_returned (retried (rpc.poll_transaction hash) "poll transaction")
          (check_status rpc sdk config submission) s2 response e2 in
      check_status-accepted submission response final s3 e3

  -- A submission ends in one of two ways. It returns a response whose status is SUCCESS, in any case of letters,
  -- or missing or empty; or it throws an exception of the service's own, whatever failed on the way.
  pub submit_tx_outcome :
      (signer : Option String) (tx : Tx) (s : SorobanState N)
      → ((response : Response) × ((submit_tx rpc sdk config signer tx s).0
            ≡ Outcome.returned response)
          × (has_failed response.status ≡ false))
        ⊎ ((e : RpcError) × ((submit_tx rpc sdk config signer tx s).0 ≡ Outcome.thrown e)
            × IsHttp e)
  unfolding submit_tx
  submit_tx_outcome signer tx s =
      go ((signed rpc sdk config signer tx >>= send_and_poll rpc sdk config) s).0 refl
    where
      go :
          (o : Outcome Response)
          → ((signed rpc sdk config signer tx >>= send_and_poll rpc sdk config) s).0 ≡ o
          → ((response : Response) × (translated "submit transaction" o ≡ Outcome.returned response)
              × (has_failed response.status ≡ false))
            ⊎ ((e : RpcError) × (translated "submit transaction" o ≡ Outcome.thrown e) × IsHttp e)
      go (Outcome.returned response) e =
          let (signed, s1, e1) =
            bind_returned (signed rpc sdk config signer tx) (send_and_poll rpc sdk config) s
              response e in
          inl (response, refl, send_and_poll-accepted signed s1 response e1)
      go (Outcome.thrown x) e = inr (
        translate_rpc_error "submit transaction" x,
        refl,
        translate_rpc_error-IsHttp "submit transaction" x,
      )
