-- ===== src/Soroban/Transactions.antt =====
-- Simulating, submitting and invoking: `simulateTx`, `submitTx` and `invokeContract` of
-- backend/src/soroban/soroban.service.ts. The client of the network and the Stellar SDK are parameters, with
-- transactions, accounts and simulations as they make them.
use dabdub.Prelude.{
  ℕ, Bool, false, not, Option, none, some, String, List, ◌++◌, if◌then◌else◌, str_eq, to_lower,
  truthy,
}
use Prim.Native.String
use dabdub.Soroban.Errors.{RpcError, HttpClass, translate_rpc_error}
use dabdub.Soroban.Retries.{Outcome, with_retry}

-- A submission, or the final answer about a transaction.
pub record Response : Type 0 where
  pub hash : Option String
  pub status : Option String

-- The calls of `SorobanRpcClient`, on the network `N`; not every client prepares transactions.
pub record RpcClient (N Tx Account Simulation : Type 0) : Type 0 where
  pub get_account : String → N → Outcome Account × N
  pub get_network : N → Outcome (Option String) × N
  pub poll_transaction : (hash : String) → N → Outcome (Option Response) × N
  pub prepare_transaction : Option (Tx → N → Outcome Tx × N)
  pub send_transaction : Tx → N → Outcome Response × N
  pub simulate_transaction : Tx → N → Outcome Simulation × N

pub record InvokeContractOptions : Type 0 where
  pub contract_id : String
  pub method : String
  pub args : List String
  pub fee : Option String
  pub read_only : Bool
  pub secret_key : Option String
  pub source_public_key : Option String
  pub timeout_in_seconds : Option ℕ

-- What the service uses of the SDK. Signing and reading of keys throw on a secret that is none.
pub record Sdk (Tx Account Simulation : Type 0) : Type 0 where
  pub assemble_transaction : Tx → Simulation → Tx
  pub sign : (secret : String) → Tx → Outcome Tx
  pub public_key : (secret : String) → Outcome String
  -- The transaction of one call of the contract.
  pub build :
      Account → (passphrase fee : String) → (timeout : ℕ) → InvokeContractOptions → Outcome Tx
  pub simulation_error : Simulation → Option String
  pub describe_failure : Response → String
  pub base_fee : String
  pub public_passphrase : String
  pub testnet_passphrase : String

-- The settings that are read.
pub record SorobanConfig : Type 0 where
  pub contract_id : Option String
  pub source_secret : Option String
  pub account_secret : Option String
  pub source_public_key : Option String
  pub account_public : Option String
  pub network_passphrase : Option String
  pub stellar_network : Option String

-- The network, the passphrase once it is known, and the waits so far.
pub record SorobanState (N : Type 0) : Type 0 where
  pub network : N
  pub network_passphrase : Option String
  pub waits : List ℕ

abbrev pub Calls : (N A : Type 0) → Type 0
Calls N A = SorobanState N → Outcome A × SorobanState N

infixl 5 ◌>>=◌
abbrev pub ◌>>=◌ : {N A B : Type 0} → Calls N A → (A → Calls N B) → Calls N B
◌>>=◌ m f s =
    let (o, s') = m s in
    elim o [ Outcome.returned a ↦ f a s' | Outcome.thrown e ↦ (Outcome.thrown e, s') ]

abbrev pub give : {N A : Type 0} → Outcome A → Calls N A
give o s = (o, s)

-- `a ?? b`
abbrev pub or_else : Option String → Option String → Option String
or_else none b = b
or_else (some a) b = some a

-- The value, or what stands for a missing one.
abbrev pub default_to : {A : Type 0} → A → Option A → A
default_to a none = a
default_to a (some b) = b

abbrev pub not_configured : {A : Type 0} → (message : String) → Outcome A
not_configured message =
    Outcome.thrown (RpcError.http_exception HttpClass.service_unavailable message)

-- `catch (error) { throw this.translateRpcError(error, action) }`
abbrev pub translated : {A : Type 0} → (action : String) → Outcome A → Outcome A
translated action (Outcome.returned a) = Outcome.returned a
translated action (Outcome.thrown e) = Outcome.thrown (translate_rpc_error action e)

abbrev pub catching : {N A : Type 0} → (action : String) → Calls N A → Calls N A
catching action m s = let (o, s') = m s in (translated action o, s')

abbrev pub retried : {N A : Type 0} → (N → Outcome A × N) → (action : String) → Calls N A
retried operation action s =
    let (o, waits, network) = with_retry operation action s.network in
    (o, record s { network = network; waits = s.waits ++ waits })

-- Neither missing nor empty, and not SUCCESS in any case of letters.
abbrev pub has_failed : Option String → Bool
has_failed status = elim (truthy status) [
  | none ↦ false
  | some text ↦ not (str_eq (to_lower text) "success")
]

-- `finalResponse?.status ?? submission?.status`
abbrev pub final_status : Option Response → Response → Option String
final_status none submission = submission.status
final_status (some final) submission = or_else final.status submission.status

abbrev pub require_hash : {N : Type 0} → Option String → Calls N String
require_hash none = give (
    Outcome.thrown (
      RpcError.http_exception HttpClass.bad_gateway
        "Soroban RPC did not return a transaction hash"))
require_hash (some hash) = give (Outcome.returned hash)

module _ {N Tx Account Simulation : Type 0} (rpc : RpcClient N Tx Account Simulation)
    (sdk : Sdk Tx Account Simulation) (config : SorobanConfig) where
  abbrev pub check_simulation : Simulation → Calls N Simulation
  check_simulation simulation = elim (sdk.simulation_error simulation) [
    | none ↦ give (Outcome.returned simulation)
    | some text ↦ give (
        Outcome.thrown (
          RpcError.http_exception HttpClass.bad_request
            (String.◌++◌ "Soroban simulation failed: " text)))
  ]

  unfoldable pub simulate_tx : Tx → Calls N Simulation
  simulate_tx tx =
      catching "simulate transaction"
        (retried (rpc.simulate_transaction tx) "simulate transaction" >>= check_simulation)

  abbrev pub prepare_with : Option (Tx → N → Outcome Tx × N) → Tx → Calls N Tx
  prepare_with (some prepare) tx = retried (prepare tx) "prepare transaction"
  prepare_with none tx = simulate_tx tx >>= λ simulation.
      give (Outcome.returned (sdk.assemble_transaction tx simulation))

  abbrev pub sign_with : Option String → Tx → Outcome Tx
  sign_with none tx = Outcome.returned tx
  sign_with (some secret) tx = sdk.sign secret tx

  -- `signTransaction`, with the signer that was given or one of the configuration.
  abbrev pub sign_transaction : (signer : Option String) → Tx → Outcome Tx
  sign_transaction signer tx =
      sign_with (truthy (or_else signer (or_else config.source_secret config.account_secret))) tx

  abbrev pub check_status : Response → Option Response → Calls N Response
  check_status submission final =
      if has_failed (final_status final submission)
      then give (
          Outcome.thrown (
            RpcError.http_exception HttpClass.bad_request (
              String.◌++◌ "Soroban transaction failed: "
                (sdk.describe_failure (default_to submission final)))))
      else give (Outcome.returned (default_to submission final))

  abbrev pub poll : (submission : Response) → (hash : String) → Calls N Response
  poll submission hash =
      retried (rpc.poll_transaction hash) "poll transaction" >>= check_status submission

  abbrev pub after_submission : Response → Calls N Response
  after_submission submission = require_hash (truthy submission.hash) >>= poll submission

  abbrev pub send_and_poll : Tx → Calls N Response
  send_and_poll tx = retried (rpc.send_transaction tx) "submit transaction" >>= after_submission

  abbrev pub signed : (signer : Option String) → Tx → Calls N Tx
  signed signer tx = prepare_with rpc.prepare_transaction tx >>= λ prepared.
      give (sign_transaction signer prepared)

  unfoldable pub submit_tx : (signer : Option String) → Tx → Calls N Response
  unfolding simulate_tx translate_rpc_error
  submit_tx signer tx = catching "submit transaction" (signed signer tx >>= send_and_poll)

  abbrev pub key_of_secret : Option String → Calls N String
  key_of_secret none =
      give (not_configured "Configure SOROBAN_SOURCE_PUBLIC_KEY or SOROBAN_SOURCE_SECRET")
  key_of_secret (some secret) = give (sdk.public_key secret)

  abbrev pub key_or_secret : (configured secret_key : Option String) → Calls N String
  key_or_secret (some key) secret_key = give (Outcome.returned key)
  key_or_secret none secret_key =
      key_of_secret
        (truthy (or_else secret_key (or_else config.source_secret config.account_secret)))

  unfoldable pub resolve_source_public_key : (secret_key : Option String) → Calls N String
  resolve_source_public_key secret_key =
      key_or_secret (truthy (or_else config.source_public_key config.account_public)) secret_key

  abbrev pub keep_passphrase : String → Calls N String
  keep_passphrase passphrase s =
      (Outcome.returned passphrase, record s { network_passphrase = some passphrase })

  -- By the name of the network, and else by asking it.
  abbrev pub passphrase_of_network : (network : String) → Calls N String
  passphrase_of_network network =
      if str_eq network "PUBLIC"
      then keep_passphrase sdk.public_passphrase
      else if str_eq network "TESTNET"
      then keep_passphrase sdk.testnet_passphrase
      else (retried rpc.get_network "load network details" >>= λ details.
          keep_passphrase (default_to sdk.testnet_passphrase details))

  abbrev pub passphrase_of_config : Option String → Calls N String
  passphrase_of_config (some passphrase) = keep_passphrase passphrase
  passphrase_of_config none = passphrase_of_network (default_to "TESTNET" config.stellar_network)

  abbrev pub known_or_configured : Option String → Calls N String
  known_or_configured (some passphrase) = give (Outcome.returned passphrase)
  known_or_configured none = passphrase_of_config (truthy config.network_passphrase)

  unfoldable pub get_network_passphrase : Calls N String
  get_network_passphrase s = known_or_configured (truthy s.network_passphrase) s

  pub data Invoked : Type 0 where
    simulated : Tx → Simulation → Invoked
    submitted : Tx → Response → Invoked

  abbrev pub source_key : InvokeContractOptions → Option String → Calls N String
  source_key options none = resolve_source_public_key options.secret_key
  source_key options (some key) = give (Outcome.returned key)

  abbrev pub run_transaction : InvokeContractOptions → Tx → Calls N Invoked
  run_transaction options tx =
      if options.read_only
      then (simulate_tx tx >>= λ simulation.
          give (Outcome.returned (Invoked.simulated tx simulation)))
      else (submit_tx options.secret_key tx >>= λ response.
          give (Outcome.returned (Invoked.submitted tx response)))

  unfoldable pub invoke_contract : InvokeContractOptions → Calls N Invoked
  unfolding submit_tx get_network_passphrase resolve_source_public_key
  invoke_contract options = source_key options options.source_public_key >>= λ source.
      retried (rpc.get_account source) "load source account" >>= λ account.
      get_network_passphrase >>= λ passphrase.
      give (
        sdk.build account passphrase (default_to sdk.base_fee options.fee)
          (default_to 30 options.timeout_in_seconds) options)
      >>= run_transaction options

  abbrev pub call_contract :
      Option String → (method : String) → List String → (read_only : Bool) → Calls N Invoked
  call_contract none method args read_only =
      give (not_configured "SOROBAN_CONTRACT_ID is not configured")
  call_contract (some contract_id) method args read_only = invoke_contract (record {
    contract_id = contract_id;
    method = method;
    args = args;
    fee = none;
    read_only = read_only;
    secret_key = none;
    source_public_key = none;
    timeout_in_seconds = none;
  })

  -- `invokeConfiguredContract`, as the methods for users, balances and payments call it.
  unfoldable pub invoke_configured_contract :
      (method : String) → List String → (read_only : Bool) → Calls N Invoked
  unfolding invoke_contract
  invoke_configured_contract method args read_only =
      call_contract (truthy config.contract_id) method args read_only
