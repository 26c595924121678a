-- ===== src/Soroban/Tests.antt =====
-- Runs of calls to Soroban, and their theorems at concrete inputs.
use dabdub.Prelude.{
  ℕ, ◌+◌, ltb, ◌≡◌, ◌⊎◌, refl, true, false, none, some, String, [], ◌∷◌, if◌then◌else◌,
}
use dabdub.Soroban.Errors.{RpcError, is_retryable, includes_any, includes}
use dabdub.Soroban.Retries.{Outcome, with_retry, three_attempts, with_retry_lem}
use dabdub.Soroban.Transactions.{
  Response, RpcClient, Sdk, SorobanConfig, SorobanState, submit_tx, has_failed,
}
use dabdub.Soroban.Submitting.{IsHttp, submit_tx_outcome}

abbrev busy : RpcError
busy = RpcError.client_error (some 503) "busy"

-- It fails twice, and then returns how often it was called.
abbrev third_time : ℕ → Outcome ℕ × ℕ
third_time n = if ltb n 2 then (Outcome.thrown busy, n + 1) else (Outcome.returned (n + 1), n + 1)

third_returns : with_retry third_time "count" 0 ≡ (Outcome.returned 3, 250 ∷ 500 ∷ [], 3)
unfolding with_retry is_retryable
third_returns = refl

with_retry_lem_example : with_retry third_time "count" 0 ≡ three_attempts third_time 0
with_retry_lem_example = with_retry_lem third_time "count" 0

-- A time-out is known by its text, a refusal is not worth a retry.
timeouts_retried : is_retryable (RpcError.client_error none "Request Timeout") ≡ true
unfolding is_retryable includes_any includes
timeouts_retried = refl

refusals_not_retried : is_retryable (RpcError.client_error (some 400) "bad sequence") ≡ false
unfolding is_retryable includes_any includes
refusals_not_retried = refl

-- A network that counts the calls.
abbrev rpc : RpcClient ℕ String String String
rpc = record {
  get_account = λ key n. (Outcome.returned key, n + 1);
  get_network = λ n. (Outcome.returned none, n + 1);
  poll_transaction = λ hash n.
      (Outcome.returned (some (record { hash = some hash; status = some "SUCCESS" })), n + 1);
  prepare_transaction = none;
  send_transaction =
      λ tx n. (Outcome.returned (record { hash = some "h1"; status = some "PENDING" }), n + 1);
  simulate_transaction = λ tx n. (Outcome.returned tx, n + 1);
}

abbrev sdk : Sdk String String String
sdk = record {
  assemble_transaction = λ tx simulation. tx;
  sign = λ secret tx. Outcome.returned tx;
  public_key = λ secret. Outcome.returned "G1";
  build = λ account passphrase fee timeout options. Outcome.returned options.method;
  simulation_error = λ simulation. none;
  describe_failure = λ response. "failed";
  base_fee = "100";
  public_passphrase = "public";
  testnet_passphrase = "test";
}

abbrev config : SorobanConfig
config = record {
  contract_id = some "C1";
  source_secret = some "S1";
  account_secret = none;
  source_public_key = none;
  account_public = none;
  network_passphrase = none;
  stellar_network = none;
}

abbrev start : SorobanState ℕ
start = record { network = 0; network_passphrase = none; waits = [] }

submit_tx_outcome_example :
    ((response : Response) × ((submit_tx rpc sdk config none "tx" start).0
        ≡ Outcome.returned response)
      × (has_failed response.status ≡ false))
    ⊎ ((e : RpcError) × ((submit_tx rpc sdk config none "tx" start).0 ≡ Outcome.thrown e)
        × IsHttp e)
submit_tx_outcome_example = submit_tx_outcome rpc sdk config none "tx" start
