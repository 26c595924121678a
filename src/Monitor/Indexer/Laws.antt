-- ===== src/Monitor/Indexer/Laws.antt =====
-- No event of a page is lost.
use Prim.Native.Nat.{max}
use dabdub.Prelude.{
  ◌≡◌, ◌⊎◌, inl, inr, refl, sym, subst, ℕ, Option, none, some, List, [], ◌∷◌, arith, All,
  Option-cases,
}
use dabdub.Platform.Actions.{Call, Env, Result, ok, err, History, perform, Action, ◌>>◌, pure}
use dabdub.Platform.Loops.{Keeps, >>-Keeps}
use dabdub.Platform.Runs.{perform->>-either, try_catch-after, >>=-both}
use dabdub.Monitor.Indexer.{
  RpcEvent, ContractEvent, parse_event, emitted, or_same, enqueue_dead_letter, handle_parsed,
  index_events,
}

-- The call stands in the history.
abbrev pub Made : Call → History → Type 0
Made c [] = ⊥
Made c (x ∷ h) = (x ≡ c) ⊎ Made c h

-- The event was none of ours, or was handed on, or is a dead letter.
abbrev pub Accounted : RpcEvent → Option (Result ContractEvent) → History → Type 0
Accounted e none h = Unit
Accounted e (some (err x)) h = Made (Call.add_dead_letter e.id) h
Accounted e (some (ok dto)) h = Made (emitted dto) h ⊎ Made (Call.add_dead_letter e.id) h

module _ (env : Env) where
  dead_letter-Made :
      (e : RpcEvent) (latest seen : ℕ) (h k : History)
      → enqueue_dead_letter env e latest h ≡ (ok seen, k)
      → Made (Call.add_dead_letter e.id) k
  unfolding enqueue_dead_letter
  dead_letter-Made e latest seen h k run =
      elim (Option-cases (env.throws (Call.add_dead_letter e.id) h)) [
        | inl fine ↦
            let call = Call.add_dead_letter e.id in
            let end : k ≡ call ∷ h = ground arith in subst (Made call) (sym end) (inl refl)
        | inr (y, bad) ↦ absurd (ground arith)
      ]

  -- One event, by what was read in it.
  handle_parsed-Accounted :
      (e : RpcEvent) (o : Option (Result ContractEvent)) (latest seen : ℕ) (h k : History)
      → handle_parsed env e o latest h ≡ (ok seen, k)
      → Accounted e o k
  unfolding handle_parsed
  handle_parsed-Accounted e none latest seen h k run = tt
  handle_parsed-Accounted e (some (err x)) latest seen h k run =
      dead_letter-Made e latest seen h k run
  handle_parsed-Accounted e (some (ok dto)) latest seen h k run =
      elim (Option-cases (env.throws (emitted dto) h)) [
        | inl fine ↦
            let end : k ≡ emitted dto ∷ h = ground arith in
            subst (λ j. Made (emitted dto) j ⊎ Made (Call.add_dead_letter e.id) j) (sym end)
              (inl (inl refl))
        | inr (y, bad) ↦
            let caught : enqueue_dead_letter env e latest h ≡ (ok seen, k) = ground arith in
            inr (dead_letter-Made e latest seen h k caught)
      ]

  -- A call that was made stays made.
  dead_letter-Keeps :
      (c : Call) (e : RpcEvent) (latest : ℕ) → Keeps (Made c) (enqueue_dead_letter env e latest)
  unfolding enqueue_dead_letter
  dead_letter-Keeps c e latest h made =
      perform->>-either (Made c) env (Call.add_dead_letter e.id) (pure latest) h (inr made) made

  handle_parsed-Made :
      (c : Call) (e : RpcEvent) (o : Option (Result ContractEvent)) (latest : ℕ)
      → Keeps (Made c) (handle_parsed env e o latest)
  unfolding handle_parsed
  handle_parsed-Made c e none latest h made = made
  handle_parsed-Made c e (some (err x)) latest h made = dead_letter-Keeps c e latest h made
  handle_parsed-Made c e (some (ok dto)) latest h made =
      let next : Action ℕ = pure (max latest (or_same e.ledger latest)) in
      try_catch-after (Made c) (perform env (emitted dto) >> next)
        (λ _. enqueue_dead_letter env e latest) h
        (perform->>-either (Made c) env (emitted dto) next h (inr made) made)
        (λ _. dead_letter-Keeps c e latest)

  index_events-Made :
      (c : Call) (es : List RpcEvent) (latest : ℕ) → Keeps (Made c) (index_events env es latest)
  unfolding index_events
  index_events-Made c [] latest h made = made
  index_events-Made c (e ∷ es) latest h made =
      >>-Keeps (Made c) (handle_parsed env e (parse_event e) latest) (index_events env es)
        (handle_parsed-Made c e (parse_event e) latest) (λ seen. index_events-Made c es seen) h made

  -- What later events leave of an earlier one's account.
  later-Accounted :
      (e : RpcEvent) (o : Option (Result ContractEvent)) (es : List RpcEvent) (latest : ℕ)
      (h : History)
      → Accounted e o h
      → Accounted e o (index_events env es latest h).1
  later-Accounted e none es latest h done = tt
  later-Accounted e (some (err x)) es latest h done =
      index_events-Made (Call.add_dead_letter e.id) es latest h done
  later-Accounted e (some (ok dto)) es latest h (inl handed) =
      inl (index_events-Made (emitted dto) es latest h handed)
  later-Accounted e (some (ok dto)) es latest h (inr dead) =
      inr (index_events-Made (Call.add_dead_letter e.id) es latest h dead)

  -- If the events of a page have been gone through, then none is lost: each that is of the two topics was
  -- handed on to the listeners or put into the queue of dead letters, and one whose value is not right
  -- was put there.
  pub index_events-Accounted :
      (es : List RpcEvent) (latest seen : ℕ) (h k : History)
      → index_events env es latest h ≡ (ok seen, k)
      → All (λ e. Accounted e (parse_event e) k) es
  unfolding index_events
  index_events-Accounted [] latest seen h k run = tt
  index_events-Accounted (e ∷ es) latest seen h k run =
      let (so_far, j, first, rest) =
        >>=-both (handle_parsed env e (parse_event e) latest) (index_events env es) h k seen run in
      let here = handle_parsed-Accounted e (parse_event e) latest so_far h j first in
      (
        subst (λ x. Accounted e (parse_event e) x.1) rest
            (later-Accounted e (parse_event e) es so_far j here),
        index_events-Accounted es so_far seen j k rest,
      )
