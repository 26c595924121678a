-- ===== src/Monitor/Escrow/Polling/Once.antt =====
-- The set of identifiers, and the loop that asks it.
use dabdub.Prelude.{
  ◌≡◌, ◌⊎◌, inl, inr, refl, ap, sym, subst, ◌∙◌, ℕ, suc, ◌+◌, ◌≤◌, Bool, true, false, Option, none,
  some, String, List, [], ◌∷◌, ◌++◌, arith, str_eq, eq_refl, eq_iff, ◌||◌, if◌then◌else◌,
  Bool-cases, truthy, ltb, length, length-append,
}
use dabdub.Platform.Actions.{Call, AlertType, Env, Result, ok, err, History, perform}
use dabdub.Monitor.Escrow.{SorobanEvent, Tracked, EscrowState, Escrow, process_escrow_event}
use dabdub.Monitor.Escrow.Polling.{
  has, dedupe_limit, drop_oldest, remember, events_loop, handle_events, receive_events,
  poll_contract, start_of, poll_escrow_events,
}

-- No identifier stands twice.
abbrev pub Distinct : List String → Type 0
Distinct [] = Unit
Distinct (x ∷ xs) = (has x xs ≡ false) × Distinct xs

abbrev pub IsBounded : List String → Type 0
IsBounded seen = Distinct seen × (length seen ≤ dedupe_limit)

pub has-append :
    (id : String) (xs : List String) (y : String) → has id (xs ++ y ∷ []) ≡ has id xs || str_eq y id
has-append id [] y = ground arith
has-append id (x ∷ xs) y = let rest = has-append id xs y in ground arith

Distinct-append :
    (xs : List String) (id : String) → Distinct xs → has id xs ≡ false → Distinct (xs ++ id ∷ [])
Distinct-append [] id d new = (refl, tt)
Distinct-append (x ∷ xs) id d new =
    let rest = has-append x xs id in
    let other : str_eq id x ≡ false = elim (Bool-cases (str_eq id x)) [
      | inr differs ↦ differs
      | inl same ↦
          let own : str_eq x id ≡ true = ap (str_eq x) ((eq_iff id x).0 same) ∙ eq_refl x in
          absurd (ground arith)
    ] in
    let new_in_rest : has id xs ≡ false = ground arith in
    (ground arith, Distinct-append xs id d.1 new_in_rest)

drop_oldest-Distinct : (xs : List String) → Distinct xs → Distinct (drop_oldest xs)
drop_oldest-Distinct [] d = tt
drop_oldest-Distinct (x ∷ xs) d = d.1

drop_oldest-length : (xs : List String) (n : ℕ) → length xs ≤ suc n → length (drop_oldest xs) ≤ n
drop_oldest-length [] n short = omega arith
drop_oldest-length (x ∷ xs) n short = omega (arith, short)

remember-IsBounded :
    (id : String) (seen : List String)
    → has id seen ≡ false
    → IsBounded seen
    → IsBounded (remember id seen)
unfolding remember
remember-IsBounded id seen new (distinct, bounded) =
    go (ltb dedupe_limit (length (seen ++ id ∷ []))) refl
  where
    apart : Distinct (seen ++ id ∷ [])
    apart = Distinct-append seen id distinct new

    longer : length (seen ++ id ∷ []) ≡ length seen + 1
    longer = length-append seen (id ∷ [])

    go :
        (b : Bool)
        → ltb dedupe_limit (length (seen ++ id ∷ [])) ≡ b
        → IsBounded (if b then drop_oldest (seen ++ id ∷ []) else seen ++ id ∷ [])
    go true e = (
      drop_oldest-Distinct (seen ++ id ∷ []) apart,
      drop_oldest-length (seen ++ id ∷ []) dedupe_limit (omega (arith, longer, bounded)),
    )
    go false e = (apart, ground arith)

module _ (env : Env) (escrow : Escrow) where
  -- One round that is not skipped, and what follows it.
  abbrev pub next_events :
      SorobanEvent
      → List SorobanEvent
      → (seen : List String) → Result (List Tracked) × History
      → (Result (Unit {0}) × History) × List String
  unfolding events_loop
  next_events e es seen (r, k) = elim r [
    | ok ts' ↦ events_loop env escrow es ts' (remember e.id seen) k
    | err x ↦ ((err x, k), remember e.id seen)
  ]

  -- The loop at an event: skipped as it is known, or handled.
  pub events_loop_cases :
      (e : SorobanEvent) (es : List SorobanEvent) (ts : List Tracked) (seen : List String)
      (h : History)
      → ((has e.id seen ≡ true)
          × (events_loop env escrow (e ∷ es) ts seen h ≡ events_loop env escrow es ts seen h))
        ⊎ ((has e.id seen ≡ false)
            × (events_loop env escrow (e ∷ es) ts seen h
                ≡ next_events e es seen (process_escrow_event env escrow e ts h)))
  unfolding events_loop
  events_loop_cases e es ts seen h = go (has e.id seen) refl
    where
      end : Bool → (Result (Unit {0}) × History) × List String
      end b = elim b [
        | true ↦ events_loop env escrow es ts seen h
        | false ↦ next_events e es seen (process_escrow_event env escrow e ts h)
      ]

      go :
          (b : Bool)
          → has e.id seen ≡ b
          → ((has e.id seen ≡ true) × (end (has e.id seen) ≡ events_loop env escrow es ts seen h))
            ⊎ ((has e.id seen ≡ false)
                × (end (has e.id seen)
                    ≡ next_events e es seen (process_escrow_event env escrow e ts h)))
      go true known = inl (known, ap end known)
      go false new = inr (new, ap end new)

  events_loop-IsBounded :
      (es : List SorobanEvent) (ts : List Tracked) (seen : List String) (h : History)
      → IsBounded seen
      → IsBounded (events_loop env escrow es ts seen h).1
  unfolding events_loop
  events_loop-IsBounded [] ts seen h bounded = bounded
  events_loop-IsBounded (e ∷ es) ts seen h bounded = elim (events_loop_cases e es ts seen h) [
    | inl (known, same) ↦
        subst (λ x. IsBounded x.1) (sym same) (events_loop-IsBounded es ts seen h bounded)
    | inr (new, same) ↦
        let more = remember-IsBounded e.id seen new bounded in
        subst (λ x. IsBounded x.1) (sym same)
          (ends more (λ ts' k. events_loop-IsBounded es ts' (remember e.id seen) k more)
            (process_escrow_event env escrow e ts h))
  ]
    where
      ends :
          IsBounded (remember e.id seen)
          → ((ts' : List Tracked) (k : History)
              → IsBounded (events_loop env escrow es ts' (remember e.id seen) k).1)
          → (x : Result (List Tracked) × History) → IsBounded (next_events e es seen x).1
      ends more later (ok ts', k) = later ts' k
      ends more later (err y, k) = more

  receive_events-IsBounded :
      (es : List SorobanEvent) (latest : ℕ) (s : EscrowState) (h : History)
      → IsBounded s.processed_event_ids
      → IsBounded (receive_events env escrow es latest s h).1.processed_event_ids
  unfolding receive_events
  receive_events-IsBounded [] latest s h bounded = bounded
  receive_events-IsBounded (e ∷ es) latest s h bounded = read (perform env Call.read_payments h)
    where
      handled :
          (ts : List Tracked) (k : History)
          → IsBounded (handle_events env escrow (e ∷ es) ts s.processed_event_ids k).1
      handled [] k = bounded
      handled (t ∷ ts) k = events_loop-IsBounded (e ∷ es) (t ∷ ts) s.processed_event_ids k bounded

      read :
          (x : Result (Unit {0}) × History)
          → IsBounded
              (elim x.0 as (λ _. (Result (Unit {0}) × History) × EscrowState) [
                | ok a ↦
                    let out =
                      handle_events env escrow
                        (e ∷ es)
                        (escrow.payments x.1)
                        s.processed_event_ids
                        x.1 in
                    (out.0, record s { start_ledger = latest; processed_event_ids = out.1 })
                | err y ↦ ((err y, x.1), record s { start_ledger = latest })
              ]).1.processed_event_ids
      read (ok a, k) = handled (escrow.payments k) k
      read (err y, k) = bounded

  -- The set of identifiers never has one twice, and never more than 10,000 of them, whatever a poll
  -- meets: a contract that is not set, a network that does not answer, an event that throws.
  pub poll_escrow_events-IsBounded :
      (s : EscrowState) (h : History)
      → IsBounded s.processed_event_ids
      → IsBounded (poll_escrow_events env escrow s h).1.processed_event_ids
  unfolding poll_escrow_events
  poll_escrow_events-IsBounded s h bounded = go (truthy (some escrow.contract_id))
    where
      start : Option ℕ
      start = start_of s.start_ledger

      asked :
          (x : Result (Unit {0}) × History)
          → IsBounded
              (elim x.0 as (λ _. (Result (Unit {0}) × History) × EscrowState) [
                | ok a ↦
                    receive_events env escrow
                      (escrow.events start x.1)
                      (escrow.latest_ledger start x.1)
                      s
                      x.1
                | err e ↦ (
                  perform env
                      (Call.raise_alert AlertType.stellar_monitor "soroban-monitor.fetch")
                      x.1,
                  s,
                )
              ]).1.processed_event_ids
      asked (ok a, k) =
          receive_events-IsBounded (escrow.events start k) (escrow.latest_ledger start k) s k
            bounded
      asked (err e, k) = bounded

      go : (o : Option String) → IsBounded (poll_contract env escrow o s h).1.processed_event_ids
      go none = bounded
      go (some c) = asked (perform env (Call.read_events start) h)
