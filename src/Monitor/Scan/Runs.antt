-- ===== src/Monitor/Scan/Runs.antt =====
-- The cursor and the outcome of a scan.
use dabdub.Prelude.{
  ◌≡◌, ◌⊎◌, inl, inr, refl, Option, some, String, List, [], ◌∷◌, ◌++◌, arith, truthy, ap, ◌∙◌,
  Option-cases,
}
use dabdub.Platform.Actions.{
  Call, AlertType, Error, Env, Action, Result, ok, err, History, perform, ◌>>◌,
}
use dabdub.Monitor.Verification.{Transaction, Chain}
use dabdub.Monitor.Confirmation.{expire_old_payments}
use dabdub.Monitor.Scan.{
  RunStatus, MonitorState, handle_transaction, scan_loop, scan_transactions, end_run, fetch_failed,
  scan_address, scan_pending_payments,
}

-- The token of the last transaction, or what there was.
abbrev pub last_token : List Transaction → Option String → Option String
last_token [] cursor = cursor
last_token (tx ∷ txs) cursor = last_token txs (some tx.paging_token)

-- The transactions were handled one after another, each round beginning where the one before it
-- ended, and every round returned.
pub data Handled (env : Env) (chain : Chain) : List Transaction → History → History → Type 0 where
  none_left : {h : History} → Handled env chain [] h h
  round :
      {tx : Transaction} {txs : List Transaction} {h j k : History}
      → handle_transaction env chain tx h ≡ (ok tt, j)
      → Handled env chain txs j k
      → Handled env chain (tx ∷ txs) h k

module _ (env : Env) (chain : Chain) where
  -- All transactions were handled, and the cursor is at the last.
  abbrev pub WentThrough :
      List Transaction
      → Option String
      → History
      → (Result (Unit {0}) × History) × Option String
      → Type 0
  WentThrough txs cursor h out =
      Handled env chain txs h out.0.1 × (out.0.0 ≡ ok tt) × (out.1 ≡ last_token txs cursor)

  -- Those before a transaction were handled, its own round threw, and the cursor is that
  -- transaction's.
  abbrev pub StoppedAt :
      List Transaction → History → (Result (Unit {0}) × History) × Option String → Type 0
  StoppedAt txs h out =
      (before : List Transaction) × (tx : Transaction) × (rest : List Transaction) × (e : Error)
      × (k : History) × (txs ≡ before ++ tx ∷ rest)
      × Handled env chain before h k
      × (handle_transaction env chain tx k ≡ (err e, out.0.1))
      × (out.0.0 ≡ err e)
      × (out.1 ≡ some tx.paging_token)

  -- The loop handles all transactions in their order, and leaves the cursor at the last; or it handles
  -- those before the first whose round throws, handles none after it, and the cursor is already at that
  -- one, so that the next scan begins after it.
  pub scan_loop_cursor :
      (txs : List Transaction) (cursor : Option String) (h : History)
      → WentThrough txs cursor h (scan_loop env chain txs cursor h)
        ⊎ StoppedAt txs h (scan_loop env chain txs cursor h)
  unfolding scan_loop
  scan_loop_cursor [] cursor h = inl (none_left, refl, refl)
  scan_loop_cursor (tx ∷ txs) cursor h =
      go (handle_transaction env chain tx h) refl (scan_loop_cursor txs (some tx.paging_token))
    where
      next : Result (Unit {0}) × History → (Result (Unit {0}) × History) × Option String
      next x = elim x.0 [
        | ok a ↦ scan_loop env chain txs (some tx.paging_token) x.1
        | err e ↦ ((err e, x.1), some tx.paging_token)
      ]

      go :
          (x : Result (Unit {0}) × History)
          → handle_transaction env chain tx h ≡ x
          → ((k : History)
              → let out = scan_loop env chain txs (some tx.paging_token) k in
                WentThrough txs (some tx.paging_token) k out ⊎ StoppedAt txs k out)
          → WentThrough (tx ∷ txs) cursor h (next x) ⊎ StoppedAt (tx ∷ txs) h (next x)
      go (err e, k) thrown later = inr ([], tx, txs, e, h, refl, none_left, thrown, refl, refl)
      go (ok tt, k) done later = elim (later k) [
        | inl (through, fine, at) ↦ inl (round done through, fine, at)
        | inr (before, t, rest, e, j, split, handled, thrown, bad, at) ↦ inr (
          tx ∷ before,
          t,
          rest,
          e,
          j,
          ap (λ ts. tx ∷ ts) split,
          round done handled,
          thrown,
          bad,
          at,
        )
      ]

  module _ (poll : Action (Unit {0})) where
    -- `poll` throws, whenever it is called.
    abbrev pub AlwaysThrows : Type 0
    AlwaysThrows = (h : History) → (e : Error) × ((poll h).0 ≡ err e)

    then-throws :
        AlwaysThrows
        → (m : Action (Unit {0})) (h : History) → (e : Error) × (((m >> poll) h).0 ≡ err e)
    then-throws bad m h = go (m h)
      where
        go :
            (x : Result (Unit {0}) × History)
            → (e : Error) × ((elim x.0 as (λ _. Result (Unit {0}) × History) [
              | ok a ↦ poll x.1
              | err y ↦ (err y, x.1)
            ]).0
                ≡ err e)
        go (ok a, k) = bad k
        go (err y, k) = (y, refl)

    scan_transactions-throws :
        AlwaysThrows
        → (txs : List Transaction) (cursor : Option String) (h : History)
        → (e : Error) × ((scan_transactions env chain poll txs cursor h).0.0 ≡ err e)
    unfolding scan_transactions
    scan_transactions-throws bad txs cursor h = go (scan_loop env chain txs cursor h)
      where
        go :
            (x : (Result (Unit {0}) × History) × Option String)
            → (e : Error) × ((elim x.0.0 as (λ _. (Result (Unit {0}) × History) × Option String) [
              | ok a ↦ ((expire_old_payments env chain >> poll) x.0.1, x.1)
              | err y ↦ ((err y, x.0.1), x.1)
            ]).0.0
                ≡ err e)
        go ((ok a, k), c) = then-throws bad (expire_old_payments env chain) k
        go ((err y, k), c) = (y, refl)

    end_run-fails :
        (s : MonitorState) (x : (Result (Unit {0}) × History) × Option String) (e : Error)
        → x.0.0 ≡ err e
        → (end_run env chain poll s x).1.last_run_status ≡ RunStatus.run_error
    end_run-fails s ((ok a, k), c) e bad = absurd (ground arith)
    end_run-fails s ((err y, k), c) e bad = refl

    fetch_failed-fails :
        (s : MonitorState) (e : Error) (h : History)
        → (fetch_failed env chain poll s e h).1.last_run_status ≡ RunStatus.run_error
    unfolding fetch_failed
    fetch_failed-fails s e h =
        elim (Option-cases
          (env.throws (Call.raise_alert AlertType.stellar_monitor "stellar-monitor.fetch") h)) [
            | inl told ↦ ground arith
            | inr (x, bad) ↦ ground arith
          ]

    scan_address-fails :
        (s : MonitorState) (h : History) (address : String)
        → AlwaysThrows
        → (scan_address env chain poll s (some address) h).1.last_run_status ≡ RunStatus.run_error
    unfolding scan_address
    scan_address-fails s h address bad =
        go (perform env (Call.read_transactions address s.cursor) h)
      where
        go :
            (x : Result (Unit {0}) × History)
            → (elim x.0 as (λ _. (Result (Unit {0}) × History) × MonitorState) [
              | ok a ↦ end_run env chain poll s (
                  scan_transactions env chain poll
                    (chain.transactions address s.cursor x.1)
                    s.cursor
                    x.1)
              | err e ↦ fetch_failed env chain poll s e x.1
            ]).1.last_run_status
              ≡ RunStatus.run_error
        go (ok a, k) =
            let txs = chain.transactions address s.cursor k in
            let (e, thrown) = scan_transactions-throws bad txs s.cursor k in
            end_run-fails s (scan_transactions env chain poll txs s.cursor k) e thrown
        go (err e, k) = fetch_failed-fails s e k

    -- If polling the transfer events throws whenever it is called, no scan of a configured deposit
    -- address is ever reported as fine: its run counts as failed, also where all payments were seen to.
    pub scan_pending_payments_fails :
        (s : MonitorState) (h : History) (address : String)
        → truthy (some env.deposit_address) ≡ some address
        → AlwaysThrows
        → (scan_pending_payments env chain poll s h).1.last_run_status ≡ RunStatus.run_error
    unfolding scan_pending_payments
    scan_pending_payments_fails s h address configured bad =
        ap (λ (a : Option String). (scan_address env chain poll s a h).1.last_run_status) configured
        ∙ scan_address-fails s h address bad
