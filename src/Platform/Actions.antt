-- ===== src/Platform/Actions.antt =====
-- A service method as a function of the calls made so far. Every `await` on a repository, a queue,
-- the Stellar network, the fiat partner or the mailer is a `Call`; what it answers, and whether it
-- throws, is for `Env` to say, which the model leaves open. So each theorem holds for any such
-- behaviour, and a method's effect is the calls that it adds to the history.
use dabdub.Prelude.{
  ℕ, ◌+◌, String, Bool, Option, none, some, List, [], ◌∷◌, ◌++◌, if◌then◌else◌, str_eq,
}
use dabdub.Platform.Entities.{
  Payment, PaymentStatus, Settlement, SettlementStatus, Webhook, WebhookJob, DeliveryStatus,
}

-- A value in a webhook's or an e-mail's data.
pub data Value : Type 0 where
  text : String → Value
  number : ℕ → Value

abbrev pub Payload : Type 0
Payload = List (String × Value)

pub data AlertType : Type 0 where
  stellar_monitor settlement_failure webhook_failure backup_failure : AlertType

-- The calls of a method that leave the process, with the arguments that matter to other parts. The
-- wording of alerts, e-mails and log lines is left out.
pub data Call : Type 0 where
  save_payment : Payment → Call
  save_payments : List Payment → Call
  save_settlement : Settlement → Call
  dispatch : (merchant_id event : String) → Payload → Call
  enqueue_settlement : (settlement_id : String) → Call
  raise_alert : AlertType → (dedupe_key : String) → Call
  invoke_contract : (fn : String) → (args : List String) → Call
  post_transfer : (amount : ℕ) → (merchant_id reference : String) → Call
  del_pattern : String → Call
  read_preference : (merchant_id event : String) → Call
  find_merchant : String → Call
  queue_email : (merchant_id template payment_id : String) → Call
  send_payment : (destination : String) → (amount : ℕ) → (asset memo : String) → Call
  enqueue_email : (recipient subject : String) → Call
  read_rate : Call
  find_webhooks : (merchant_id : String) → Call
  find_webhook : (id : String) → Call
  post_webhook : WebhookJob → Call
  save_delivery_log : WebhookJob → DeliveryStatus → (retry_delay : ℕ) → Call
  save_webhook : Webhook → Call
  add_delivery : WebhookJob → (delay : ℕ) → Call
  render_qr : (uri : String) → Call
  create_on_contract : (payment_id address amount : String) → (expiry_ledgers : ℕ) → Call
  confirm_on_contract : (payment_id customer : String) → Call
  read_transactions : (address : String) → (cursor : Option String) → Call
  read_transaction : (hash : String) → Call
  read_operations : (hash : String) → Call
  read_events : (start_ledger : Option ℕ) → Call
  read_page : (start_ledger : Option ℕ) → (page_cursor : Option String) → Call
  read_cursor : Call
  save_cursor : (ledger : ℕ) → Call
  emit : (event key : String) → Call
  add_dead_letter : (event_id : String) → Call
  read_payments : Call
  find_pending : (memo : String) → Call
  find_expired : (now : ℕ) → Call
  -- `invokeContract('confirm', [id, txHash, amount, asset, from ?? null])`
  confirm_on_chain :
      (payment_id tx_hash : String)
      → (amount : ℕ) → (asset : String) → (from : Option String) → Call

-- The calls that have returned, the newest first.
abbrev pub History : Type 0
History = List Call

-- The exceptions of the source, by class, with their message.
pub data Error : Type 0 where
  not_found bad_request forbidden unauthorized conflict failure payment_expired : String → Error

abbrev pub message : Error → String
message (Error.not_found m) = m
message (Error.bad_request m) = m
message (Error.forbidden m) = m
message (Error.unauthorized m) = m
message (Error.conflict m) = m
message (Error.failure m) = m
message (Error.payment_expired m) = m

-- The surroundings of the services: database, queues, network, clock and random numbers.
pub record Env : Type 0 where
  pub throws : Call → History → Option Error
  pub fresh_id : History → String
  pub now : History → ℕ
  pub transfer_reference : History → Option String  -- `response.data?.reference`
  pub email_enabled : (merchant_id event : String) → History → Bool
  pub tx_hash : History → String
  -- `Math.random().toString(36).substring(2, 2 + n).toUpperCase()`
  pub random_text : (n : ℕ) → History → String
  pub deposit_address : String
  pub xlm_rate : History → ℕ  -- millionths of a dollar for one lumen
  pub ledgers_per_minute : ℕ
  pub webhook_retry_schedule : List ℕ  -- milliseconds
  pub active_webhooks : (merchant_id : String) → History → List Webhook
  pub webhook : (id : String) → History → Option Webhook
  pub contract_expiry : History → ℕ
  pub merchant_email : String → History → String
  pub business_name : String → History → String

pub data Result (A : Type 0) : Type 0 where
  ok : A → Result A
  err : Error → Result A

abbrev pub Action : Type 0 → Type 0
Action A = History → Result A × History

abbrev pub pure : {A : Type 0} → A → Action A
pure a h = (ok a, h)

abbrev pub throw : {A : Type 0} → Error → Action A
throw e h = (err e, h)

-- What the surroundings answer at this point.
abbrev pub ask : {A : Type 0} → (History → A) → Action A
ask answer h = (ok (answer h), h)

infixl 5 ◌>>=◌ ◌>>◌
abbrev pub ◌>>=◌ : {A B : Type 0} → Action A → (A → Action B) → Action B
◌>>=◌ m f h = let (r, h') = m h in elim r [ ok a ↦ f a h' | err e ↦ (err e, h') ]

abbrev pub ◌>>◌ : {A B : Type 0} → Action A → Action B → Action B
m >> k = m >>= λ _. k

-- `try { m } catch (e) { handler(e) }`: the calls made before the throw stay made.
abbrev pub try_catch : {A : Type 0} → Action A → (Error → Action A) → Action A
try_catch m handler h = let (r, h') = m h in elim r [ ok a ↦ (ok a, h') | err e ↦ handler e h' ]

abbrev pub when : Bool → Action (Unit {0}) → Action (Unit {0})
when c m = if c then m else pure tt

-- `for (const x of xs) await body(x)`
abbrev pub for_each : {A : Type 0} → List A → (A → Action (Unit {0})) → Action (Unit {0})
for_each [] body = pure tt
for_each (x ∷ xs) body = body x >> for_each xs body

module _ (env : Env) where
  -- One call: it throws and leaves no mark, or it is added to the history.
  unfoldable pub perform : Call → Action (Unit {0})
  perform c h = elim (env.throws c h) [ none ↦ (ok tt, c ∷ h) | some x ↦ (err x, h) ]

  abbrev pub now : Action ℕ
  now h = (ok (env.now h), h)

  abbrev pub fresh_id : Action String
  fresh_id h = (ok (env.fresh_id h), h)

-- `try { a <- m; f(a) } catch (e) { handler(e) }` where `f` has its own handler.
abbrev pub attempt : {A B : Type 0} → Action A → (A → Action B) → (Error → Action B) → Action B
attempt m f handler h = let (r, h') = m h in elim r [ ok a ↦ f a h' | err e ↦ handler e h' ]

-- Of rows saved at once, the last one with the id; else what was before.
abbrev pub status_among : String → List Payment → Option PaymentStatus → Option PaymentStatus
status_among id [] before = before
status_among id (p ∷ ps) before =
    status_among id ps (if str_eq p.id id then some p.status else before)

-- The status that the last save of a payment or settlement wrote.
unfoldable pub payment_status : String → History → Option PaymentStatus
payment_status id [] = none
payment_status id (Call.save_payment p ∷ h) =
    if str_eq p.id id then some p.status else payment_status id h
payment_status id (Call.save_payments ps ∷ h) = status_among id ps (payment_status id h)
payment_status id (_ ∷ h) = payment_status id h

unfoldable pub settlement_status : String → History → Option SettlementStatus
settlement_status id [] = none
settlement_status id (Call.save_settlement s ∷ h) =
    if str_eq s.id id then some s.status else settlement_status id h
settlement_status id (_ ∷ h) = settlement_status id h

-- How many transfers the fiat partner has accepted for a settlement.
unfoldable pub transfers : String → History → ℕ
transfers id [] = 0
transfers id (Call.post_transfer _ _ reference ∷ h) =
    if str_eq reference id then transfers id h + 1 else transfers id h
transfers id (_ ∷ h) = transfers id h

-- The payment rows written, those of one save in their order, the newest save first.
unfoldable pub written : History → List Payment
written [] = []
written (Call.save_payment p ∷ h) = p ∷ written h
written (Call.save_payments ps ∷ h) = ps ++ written h
written (_ ∷ h) = written h

-- The Stellar transfers that left the account, the newest first.
unfoldable pub sent : History → List (String × ℕ × String)
sent [] = []
sent (Call.send_payment wallet amount asset _ ∷ h) = (wallet, amount, asset) ∷ sent h
sent (_ ∷ h) = sent h
