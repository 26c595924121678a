-- ===== src/Monitor/Escrow/Laws.antt =====
-- What an event of the escrow contract writes.
use dabdub.Prelude.{
  ◌≡◌, ◌⊎◌, inl, inr, refl, ap, ◌∙◌, ℕ, ◌≤◌, Bool, true, false, Option, none, some, String, List,
  ◌∷◌, arith, Option-cases, ltb, if◌then◌else◌,
}
use Prim.Native.String
use dabdub.Platform.Entities.{Payment, PaymentStatus, same_status}
use dabdub.Platform.Actions.{
  Call, AlertType, Env, Action, Result, ok, err, History, pure, perform, written, ◌>>◌,
}
use dabdub.Platform.Runs.{perform->>-either, if-ends}
use dabdub.Monitor.Escrow.{
  EscrowEventTopic, EscrowEventPayload, SorobanEvent, Tracked, Escrow, extract_topic,
  normalize_payload, payment_id_of, map_topic_to_status, find_tracked, put_tracked,
  expected_stroops, row_with_status, check_balance, verify_deposit_balance, is_short_paid,
  set_status, apply_topic, apply_found, apply_payload, apply_event, process_escrow_event,
}

-- The balance is at least what the payment expects, or the contract could not tell.
abbrev pub Enough : Payment → (on_chain : Option ℕ) → Type 0
Enough p none = Unit
Enough p (some balance) = expected_stroops p ≤ balance

module _ (env : Env) (escrow : Escrow) where
  -- From this history, the row is written or none is.
  abbrev Wrote : (row : Payment) → (before after : History) → Type 0
  Wrote row h k = (written k ≡ written h) ⊎ (written k ≡ row ∷ written h)

  set_status-Wrote :
      (next : PaymentStatus) (id : String) (t : Tracked) (ts : List Tracked) (h : History)
      → Wrote (row_with_status next t.row) h (set_status env escrow next id t ts h).1
  unfolding set_status written
  set_status-Wrote next id t ts h =
      let row = row_with_status next t.row in
      if-ends (λ x. Wrote row h x.1) (same_status t.row.status next) (pure ts)
        (perform env (Call.save_payment row) >> pure (put_tracked id (record t { row = row }) ts)) h
        (λ same. inl refl)
        (λ other.
          perform->>-either (Wrote row h) env (Call.save_payment row)
            (pure (put_tracked id (record t { row = row }) ts)) h (inr refl) (inl refl))

  -- A deposit that passes has enough.
  verify_deposit_balance-Enough :
      (p : Payment) (id : String) (h : History)
      → let (r, k) = verify_deposit_balance env escrow p id h in
        (written k ≡ written h) × (r ≡ ok false → Enough p (escrow.balance id h))
  unfolding verify_deposit_balance written
  verify_deposit_balance-Enough p id h = go (escrow.balance id h)
    where
      go :
          (balance : Option ℕ)
          → let (r, k) = check_balance env escrow p balance h in
            (written k ≡ written h) × (r ≡ ok false → Enough p balance)
      go none = (refl, λ _. tt)
      go (some b) =
          let alert =
            Call.raise_alert AlertType.stellar_monitor
              (String.◌++◌ "soroban-monitor.short-paid:" p.id) in
          if-ends
            (λ (x : Result Bool × History).
              (written x.1 ≡ written h) × (x.0 ≡ ok false → Enough p (some b)))
            (ltb b (expected_stroops p)) (perform env alert >> pure true) (pure false) h
            (λ short. elim (Option-cases (env.throws alert h)) [
              | inl told ↦ (ground arith, λ e. absurd (ground arith))
              | inr (x, bad) ↦ (ground arith, λ e. absurd (ground arith))
            ])
            (λ fine. (refl, λ e. ground arith))

  -- What a topic asks for before the status is set.
  abbrev pub Allowed : EscrowEventTopic → Payment → (payment_id : String) → History → Type 0
  Allowed EscrowEventTopic.deposit p id h = Enough p (escrow.balance id h)
  Allowed _ p id h = Unit

  is_short_paid-Allowed :
      (topic : EscrowEventTopic) (p : Payment) (id : String) (h : History)
      → let (r, k) = is_short_paid env escrow topic p id h in
        (written k ≡ written h) × (r ≡ ok false → Allowed topic p id h)
  unfolding is_short_paid
  is_short_paid-Allowed EscrowEventTopic.deposit p id h = verify_deposit_balance-Enough p id h
  is_short_paid-Allowed EscrowEventTopic.release p id h = (refl, λ _. tt)
  is_short_paid-Allowed EscrowEventTopic.refund p id h = (refl, λ _. tt)
  is_short_paid-Allowed EscrowEventTopic.expired p id h = (refl, λ _. tt)
  is_short_paid-Allowed EscrowEventTopic.dispute p id h = (refl, λ _. tt)

  -- No row was written, or that of the payment with the topic's status, which was allowed.
  abbrev Applied :
      EscrowEventTopic → Payment → (payment_id : String) → (before after : History) → Type 0
  Applied topic p id h k =
      (written k ≡ written h)
      ⊎ ((written k ≡ row_with_status (map_topic_to_status topic) p ∷ written h)
          × Allowed topic p id h)

  apply_topic-Applied :
      (topic : EscrowEventTopic) (id : String) (t : Tracked) (ts : List Tracked) (h : History)
      → Applied topic t.row id h (apply_topic env escrow topic id t ts h).1
  unfolding apply_topic
  apply_topic-Applied topic id t ts h =
      let (same, allowed) = is_short_paid-Allowed topic t.row id h in
      go (is_short_paid env escrow topic t.row id h) same allowed
    where
      next : Action (List Tracked)
      next = set_status env escrow (map_topic_to_status topic) id t ts

      unpaid : Bool → Action (List Tracked)
      unpaid short = if short then pure ts else next

      go :
          (x : Result Bool × History)
          → written x.1 ≡ written h
          → (x.0 ≡ ok false → Allowed topic t.row id h)
          → Applied topic t.row id h
              (elim x.0 as (λ _. Result (List Tracked) × History) [
                | ok b ↦ unpaid b x.1
                | err y ↦ (err y, x.1)
              ]).1
      go (err y, k) same allowed = inl same
      go (ok true, k) same allowed = inl same
      go (ok false, k) same allowed =
          elim (set_status-Wrote (map_topic_to_status topic) id t ts k) [
            | inl kept ↦ inl (kept ∙ same)
            | inr wrote ↦ inr (
              wrote ∙ ap (λ rows. row_with_status (map_topic_to_status topic) t.row ∷ rows) same,
              allowed refl,
            )
          ]

  -- An event that wrote a row: its topic and its payment are known, the row is that payment with the
  -- status of the topic, and was allowed.
  abbrev pub Effect : SorobanEvent → List Tracked → (before after : History) → Type 0
  Effect event ts h k =
      (topic : EscrowEventTopic) × (id : String) × (t : Tracked) × (extract_topic event.topic
        ≡ some topic)
      × (payment_id_of (normalize_payload event.value) ≡ some id)
      × (find_tracked id ts ≡ some t)
      × (written k ≡ row_with_status (map_topic_to_status topic) t.row ∷ written h)
      × Allowed topic t.row id h

  -- An event writes no payment, or one: that which its identifier matches first among the payments as
  -- the events before left them, with the status of its topic. For a deposit the contract then holds
  -- what the payment expects in dollars, or could not be asked.
  pub process_escrow_event-Effect :
      (event : SorobanEvent) (ts : List Tracked) (h : History)
      → let after = (process_escrow_event env escrow event ts h).1 in
        (written after ≡ written h) ⊎ Effect event ts h after
  unfolding process_escrow_event
  process_escrow_event-Effect event ts h = topics (extract_topic event.topic) refl
    where
      payload : EscrowEventPayload
      payload = normalize_payload event.value

      found :
          (topic : EscrowEventTopic) (id : String) (o : Option Tracked)
          → extract_topic event.topic ≡ some topic
          → payment_id_of payload ≡ some id
          → find_tracked id ts ≡ o
          → let after = (apply_found env escrow topic id o ts h).1 in
            (written after ≡ written h) ⊎ Effect event ts h after
      found topic id none known named at = inl refl
      found topic id (some t) known named at = elim (apply_topic-Applied topic id t ts h) [
        | inl same ↦ inl same
        | inr (wrote, allowed) ↦ inr (topic, id, t, known, named, at, wrote, allowed)
      ]

      named :
          (topic : EscrowEventTopic) (o : Option String)
          → extract_topic event.topic ≡ some topic
          → payment_id_of payload ≡ o
          → let after = (apply_payload env escrow topic o ts h).1 in
            (written after ≡ written h) ⊎ Effect event ts h after
      named topic none known name = inl refl
      named topic (some id) known name = found topic id (find_tracked id ts) known name refl

      topics :
          (o : Option EscrowEventTopic)
          → extract_topic event.topic ≡ o
          → let after = (apply_event env escrow o payload ts h).1 in
            (written after ≡ written h) ⊎ Effect event ts h after
      topics none known = inl refl
      topics (some topic) known = named topic (payment_id_of payload) known refl
