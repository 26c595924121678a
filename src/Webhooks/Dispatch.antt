-- ===== src/Webhooks/Dispatch.antt =====
-- `dispatch` of backend/src/webhooks/webhooks.service.ts and `enqueueDelivery` of
-- backend/src/webhooks/webhook-delivery.service.ts. The body is the JSON text of event and payload,
-- an argument here.
use dabdub.Prelude.{
  eq_iff, eq_refl, ◌⊎◌, true, refl, subst, Bool-cases, inl, inr, Bool, false, ◌||◌, Option, none,
  some, String, List, [], ◌∷◌, ◌≡◌, if◌then◌else◌, str_eq, arith,
}
use dabdub.Platform.Entities.{Webhook, WebhookJob}
use dabdub.Platform.Actions.{Call, Env, Action, History, ok, ask, ◌>>=◌, ◌>>◌, for_each, perform}
use dabdub.Platform.Loops.{after, for_each-cases}
use dabdub.Platform.Runs.{perform->>}

-- `events.includes(event)`
abbrev pub includes : String → List String → Bool
includes event [] = false
includes event (e ∷ es) = str_eq e event || includes event es

abbrev pub is_subscribed : String → Webhook → Bool
is_subscribed event w = includes event w.events || includes "*" w.events

abbrev pub matching : String → List Webhook → List Webhook
matching event [] = []
matching event (w ∷ ws) =
    let rest = matching event ws in if is_subscribed event w then w ∷ rest else rest

-- `webhook.secret ?? ""`
abbrev pub secret_of : Option String → String
secret_of none = ""
secret_of (some s) = s

abbrev pub first_job : (event body : String) → Webhook → WebhookJob
first_job event body w = record {
  webhook_id = w.id;
  merchant_id = w.merchant_id;
  url = w.url;
  secret = secret_of w.secret;
  event = event;
  body = body;
  attempt_number = 1;
}

module _ (env : Env) where
  abbrev pub enqueue_delivery : (event body : String) → Webhook → Action (Unit {0})
  unfolding perform
  enqueue_delivery event body w = perform env (Call.add_delivery (first_job event body w) 0)

  unfoldable pub dispatch : (merchant_id event body : String) → Action (Unit {0})
  unfolding perform enqueue_delivery
  dispatch merchant event body = do
    perform env (Call.find_webhooks merchant)
    webhooks ← ask (env.active_webhooks merchant)
    for_each (matching event webhooks) (enqueue_delivery event body)

abbrev pub Lists : String → List String → Type 0
Lists event [] = ⊥
Lists event (e ∷ es) = (e ≡ event) ⊎ Lists event es

-- The webhook's list of events has the event itself or the star.
abbrev pub Subscribes : String → Webhook → Type 0
Subscribes event w = Lists event w.events ⊎ Lists "*" w.events

-- The hooks among `ws` that list the event or the star, in their order.
pub data Selected (event : String) : (ws hooks : List Webhook) → Type 0 where
  nothing_left : Selected event [] []
  selects :
      {w : Webhook} {ws hooks : List Webhook}
      → Subscribes event w
      → Selected event ws hooks
      → Selected event (w ∷ ws) (w ∷ hooks)
  passes :
      {w : Webhook} {ws hooks : List Webhook}
      → (Subscribes event w → ⊥)
      → Selected event ws hooks
      → Selected event (w ∷ ws) hooks

includes-Lists :
    (event : String) (es : List String)
    → ((includes event es ≡ true) × Lists event es)
      ⊎ ((includes event es ≡ false) × (Lists event es → ⊥))
includes-Lists event [] = inr (refl, λ bad. bad)
includes-Lists event (e ∷ es) = elim (Bool-cases (str_eq e event)) [
  | inl same ↦ inl (ground arith, inl ((eq_iff e event).0 same))
  | inr other ↦ elim (includes-Lists event es) [
    | inl (found, there) ↦ inl (ground arith, inr there)
    | inr (missing, away) ↦ inr (
      ground arith,
      λ o. elim o [
        | inl same ↦ differ (subst (λ x. str_eq e x ≡ true) same (eq_refl e)) other
        | inr there ↦ away there
      ],
    )
  ]
]
  where
    differ : {b : Bool} → b ≡ true → b ≡ false → ⊥
    differ held not_held = ground arith

is_subscribed-Subscribes :
    (event : String) (w : Webhook)
    → ((is_subscribed event w ≡ true) × Subscribes event w)
      ⊎ ((is_subscribed event w ≡ false) × (Subscribes event w → ⊥))
is_subscribed-Subscribes event w = elim (includes-Lists event w.events) [
  | inl (found, there) ↦ inl (ground arith, inl there)
  | inr (missing, away) ↦ elim (includes-Lists "*" w.events) [
    | inl (found, there) ↦ inl (ground arith, inr there)
    | inr (no_star, not_all) ↦
        inr (ground arith, λ o. elim o [ inl there ↦ away there | inr there ↦ not_all there ])
  ]
]

matching-Selected : (event : String) (ws : List Webhook) → Selected event ws (matching event ws)
matching-Selected event [] = nothing_left
matching-Selected event (w ∷ ws) =
    go (is_subscribed event w) (is_subscribed-Subscribes event w) (matching-Selected event ws)
  where
    go :
        (b : Bool)
        → ((b ≡ true) × Subscribes event w) ⊎ ((b ≡ false) × (Subscribes event w → ⊥))
        → Selected event ws (matching event ws)
        → Selected event (w ∷ ws) (if b then w ∷ matching event ws else matching event ws)
    go true (inl (_, there)) later = selects there later
    go true (inr (bad, _)) later = absurd (ground arith)
    go false (inl (bad, _)) later = absurd (ground arith)
    go false (inr (_, away)) later = passes away later

module _ (env : Env) where
  -- If `dispatch` returns, it has read the merchant's active webhooks and put one delivery into the
  -- queue for each of those whose list of events has the event or the star, and for no other, in
  -- their order, and no other call has been made. Each delivery is a first attempt, without delay, at
  -- the webhook's address and with its secret, or the empty one.
  pub dispatch_outcome :
      (merchant event body : String) (h h' : History)
      → dispatch env merchant event body h ≡ (ok tt, h')
      → let found = Call.find_webhooks merchant ∷ h in
        (hooks : List Webhook) × Selected event (env.active_webhooks merchant found) hooks
        × (h'
            ≡ after
                (λ w.
                  Call.add_delivery
                    (record {
                      webhook_id = w.id;
                      merchant_id = w.merchant_id;
                      url = w.url;
                      secret = elim w.secret [ none ↦ "" | some s ↦ s ];
                      event = event;
                      body = body;
                      attempt_number = 1;
                    })
                    0)
                hooks
                found)
  unfolding dispatch enqueue_delivery
  dispatch_outcome merchant event body h h' e =
      let found = Call.find_webhooks merchant ∷ h in
      let hooks = matching event (env.active_webhooks merchant found) in
      (
        hooks,
        matching-Selected event (env.active_webhooks merchant found),
        elim (perform->> env (Call.find_webhooks merchant)
            (ask (env.active_webhooks merchant) >>= λ ws.
              for_each (matching event ws) (enqueue_delivery env event body))
            h h' (ok tt) e) [
              | inr (same, (x, bad)) ↦ absurd (ground arith)
              | inl run ↦
                  elim (for_each-cases env (λ w. Call.add_delivery (first_job event body w) 0) hooks
                    found) [ inl done ↦ ground arith | inr (x, k, thrown) ↦ absurd (ground arith) ]
            ],
      )
