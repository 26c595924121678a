-- ===== src/Soroban/Errors.antt =====
-- The errors of a call and what is made of them: `isRetryable` and `translateRpcError` of
-- backend/src/soroban/soroban.service.ts.
use Prim.Native.Char.{code}
use Prim.Native.String
use dabdub.Prelude.{
  ℕ, ◌==◌, Bool, true, false, ◌&&◌, ◌||◌, Option, none, some, String, List, [], ◌∷◌, if◌then◌else◌,
  to_lower,
}

pub data HttpClass : Type 0 where
  bad_request bad_gateway service_unavailable : HttpClass

-- What a call throws: an exception of the service's own, or an error of the client with the status in its
-- response, if any, and its message.
pub data RpcError : Type 0 where
  http_exception : HttpClass → (message : String) → RpcError
  client_error : (status : Option ℕ) → (message : String) → RpcError

abbrev pub http_status : HttpClass → ℕ
http_status HttpClass.bad_request = 400
http_status HttpClass.bad_gateway = 502
http_status HttpClass.service_unavailable = 503

-- `error.response?.status ?? error.status`
abbrev pub status_of : RpcError → Option ℕ
status_of (RpcError.http_exception class message) = some (http_status class)
status_of (RpcError.client_error status message) = status

abbrev pub describe_error : RpcError → String
describe_error (RpcError.http_exception class message) = message
describe_error (RpcError.client_error status message) = message

abbrev pub is_one_of : Option ℕ → List ℕ → Bool
is_one_of none ns = false
is_one_of (some s) [] = false
is_one_of (some s) (n ∷ ns) = s == n || is_one_of (some s) ns

abbrev pub retry_statuses : List ℕ
retry_statuses = 408 ∷ 429 ∷ 500 ∷ 502 ∷ 503 ∷ 504 ∷ []

abbrev pub starts_with : (text fragment : String) → Bool
starts_with text String.[] = true
starts_with String.[] (String.◌∷◌ c fragment) = false
starts_with (String.◌∷◌ d text) (String.◌∷◌ c fragment) =
    code d == code c && starts_with text fragment

-- `text.includes(fragment)`
unfoldable pub includes : (text fragment : String) → Bool
includes String.[] fragment = starts_with "" fragment
includes (String.◌∷◌ c text) fragment =
    starts_with (String.◌∷◌ c text) fragment || includes text fragment

unfoldable pub includes_any : (text : String) → List String → Bool
unfolding includes
includes_any text [] = false
includes_any text (f ∷ fs) = includes text f || includes_any text fs

abbrev pub retry_fragments : List String
retry_fragments =
    "timeout" ∷ "temporarily unavailable" ∷ "network" ∷ "socket hang up" ∷ "econnreset"
    ∷ "eai_again" ∷ "etimedout" ∷ "503" ∷ "502" ∷ []

unfoldable pub is_retryable : RpcError → Bool
unfolding includes_any
is_retryable e =
    if is_one_of (status_of e) retry_statuses
    then true
    else includes_any (to_lower (describe_error e)) retry_fragments

unfoldable pub translate_rpc_error : (action : String) → RpcError → RpcError
unfolding is_retryable
translate_rpc_error action (RpcError.http_exception class message) =
    RpcError.http_exception class message
translate_rpc_error action (RpcError.client_error status message) =
    if is_retryable (RpcError.client_error status message)
    then RpcError.http_exception HttpClass.service_unavailable (
        String.◌++◌ "Soroban RPC unavailable while trying to "
          (String.◌++◌ action (String.◌++◌ ": " message)))
    else RpcError.http_exception HttpClass.bad_gateway (
        String.◌++◌ "Soroban RPC error while trying to "
          (String.◌++◌ action (String.◌++◌ ": " message)))
