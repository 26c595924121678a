-- ===== src/Monitor/Indexer/Pages.antt =====
-- The loop over the pages comes to an end.
use Prim.Native.Nat.{max}
use dabdub.Prelude.{
  ◌≡◌, ◌≢◌, inl, inr, ℕ, zero, suc, ◌+◌, ◌*◌, ◌<◌, ◌≤◌, [], false, Option, none, some, String, List,
  ◌∷◌, arith, length, ltb, if◌then◌else◌,
}
use dabdub.Platform.Actions.{Call, Env, ok, History, Action, pure, ◌>>=◌, ask}
use dabdub.Platform.Runs.{perform->>, >>=-both, if-cases}
use dabdub.Monitor.Indexer.{RpcEvent, Feed, page_limit, last_token, index_events, index_pages}

-- Where a page begins: `before` counts the events ahead of a starting ledger, or of the first one kept,
-- and `place` those up to a token.
abbrev pub position :
    (before : Option ℕ → ℕ)
    → (place : String → ℕ) → (start : Option ℕ) → (cursor : Option String) → ℕ
position before place start none = before start
position before place start (some token) = place token

-- The events are the ones that come next after the first `n`.
abbrev pub Follow : (place : String → ℕ) → (n : ℕ) → List RpcEvent → Type 0
Follow place n [] = Unit
Follow place n (e ∷ es) = (place e.paging_token ≡ n + 1) × Follow place (n + 1) es

-- A page has the events that follow the cursor, or begin at the starting ledger, in their order and
-- without a gap, and while the loop runs the contract has no more than `total` events.
abbrev pub PagesInOrder :
    Feed → (before : Option ℕ → ℕ) → (place : String → ℕ) → (total : ℕ) → Type 0
PagesInOrder feed before place total =
    (start : Option ℕ) (cursor : Option String) (h : History)
    → let n = position before place start cursor in
      let events = feed.page start cursor h in Follow place n events × (n + length events ≤ total)

module _ (env : Env) (feed : Feed) (before : Option ℕ → ℕ) (place : String → ℕ) where
  last_token-Follow :
      (e : RpcEvent) (es : List RpcEvent) (n : ℕ) (cursor : Option String)
      → Follow place n (e ∷ es)
      → position before place none (last_token env feed (e ∷ es) cursor) ≡ n + length (e ∷ es)
  last_token-Follow e [] n cursor (here, later) = omega (arith, here)
  last_token-Follow e (x ∷ xs) n cursor (here, later) =
      let rest = last_token-Follow x xs (n + 1) (some e.paging_token) later in omega (arith, rest)

  full_page :
      (events : List RpcEvent) (n : ℕ) (cursor : Option String)
      → Follow place n events
      → ltb (length events) page_limit ≡ false
      → n + 200 ≤ position before place none (last_token env feed events cursor)
  full_page [] n cursor follows full = absurd (ground arith)
  full_page (e ∷ es) n cursor follows full =
      let last = last_token-Follow e es n cursor follows in ground arith

  -- If each page has the events that follow its cursor, and there are at most `total` events while the
  -- loop runs, the loop does not use up its fuel when that is for more than the events left to read,
  -- two hundred a page. The events themselves may come while it runs.
  pub index_pages_ends :
      (total : ℕ)
      → PagesInOrder feed before place total
      → (fuel : ℕ) (start : Option ℕ) (cursor : Option String) (latest : ℕ) (h k : History)
      → total < position before place start cursor + 200 * fuel
      → index_pages env feed fuel start cursor latest h ≢ (ok none, k)
  unfolding index_pages
  index_pages_ends total order zero start cursor latest h k few run =
      absurd (omega (arith, (order start cursor h).1, few))
  index_pages_ends total order (suc fuel) start cursor latest h k few run =
      let events = feed.page start cursor (call ∷ h) in
      let tip = feed.latest_ledger start cursor (call ∷ h) in
      elim (perform->> env call page h k (ok none) run) [
        | inr (same, (x, bad)) ↦ absurd (ground arith)
        | inl read ↦
            let (seen, j, done, rest) =
              >>=-both (index_events env events (max latest tip)) (next events) (call ∷ h) k none
                read in
            elim (if-cases (ltb (length events) page_limit) (pure (some seen))
              (index_pages env feed fuel none (last_token env feed events cursor) seen) j
              (ok none, k) rest) [
                | inl (short, last) ↦ absurd (ground arith)
                | inr (full, more) ↦
                    let on =
                      full_page events (position before place start cursor) cursor
                        (order start cursor (call ∷ h)).0 full in
                    index_pages_ends total order fuel none (last_token env feed events cursor) seen
                      j k (omega (arith, on, few)) more
              ]
      ]
    where
      call : Call
      call = Call.read_page start cursor

      next : List RpcEvent → ℕ → Action (Option ℕ)
      next events seen =
          if ltb (length events) page_limit
          then pure (some seen)
          else index_pages env feed fuel none (last_token env feed events cursor) seen

      page : Action (Option ℕ)
      page = do
        events ← ask (feed.page start cursor)
        tip ← ask (feed.latest_ledger start cursor)
        seen ← index_events env events (max latest tip)
        next events seen
