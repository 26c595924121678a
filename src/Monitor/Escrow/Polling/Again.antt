-- ===== src/Monitor/Escrow/Polling/Again.antt =====
-- Events that the network sends again.
use dabdub.Prelude.{
  ◌≡◌, inl, inr, refl, ap, sym, subst, ◌∙◌, ◌+◌, ◌≤◌, ◌<◌, true, false, String, List, [], ◌∷◌, ◌++◌,
  arith, str_eq, eq_refl, ◌||◌, if◌then◌else◌, ltb, length, length-append, All,
}
use dabdub.Platform.Actions.{Env, Result, ok, err, History}
use dabdub.Monitor.Escrow.{SorobanEvent, Tracked, Escrow, process_escrow_event}
use dabdub.Monitor.Escrow.Polling.{has, dedupe_limit, drop_oldest, remember, events_loop}
use dabdub.Monitor.Escrow.Polling.Once.{has-append, next_events, events_loop_cases}

remember-room :
    (id : String) (seen : List String)
    → length seen < dedupe_limit
    → remember id seen ≡ seen ++ id ∷ []
unfolding remember
remember-room id seen room =
    let longer = length-append seen (id ∷ []) in
    let fits : ltb dedupe_limit (length (seen ++ id ∷ [])) ≡ false = ground arith in
    ap (λ b. if b then drop_oldest (seen ++ id ∷ []) else seen ++ id ∷ []) fits

-- What was seen stays seen as long as there is room, and the new identifier is seen.
remember-has :
    (id x : String) (seen : List String)
    → length seen < dedupe_limit
    → has x seen || str_eq id x ≡ true
    → has x (remember id seen) ≡ true
remember-has id x seen room known =
    ap (has x) (remember-room id seen room) ∙ has-append x seen id ∙ known

remember-length :
    (id : String) (seen : List String)
    → length seen < dedupe_limit
    → length (remember id seen) ≡ length seen + 1
remember-length id seen room = ap length (remember-room id seen room) ∙ length-append seen (id ∷ [])

-- All these events have been seen.
abbrev pub Known : List SorobanEvent → List String → Type 0
Known es seen = All (λ e. has e.id seen ≡ true) es

-- What was seen before is seen after.
abbrev Grows : (seen later : List String) → Type 0
Grows seen later = (x : String) → has x seen ≡ true → has x later ≡ true

module _ (env : Env) (escrow : Escrow) where
  events_loop-Known :
      (es : List SorobanEvent) (ts : List Tracked) (seen : List String) (h : History)
      → Known es seen
      → events_loop env escrow es ts seen h ≡ ((ok tt, h), seen)
  unfolding events_loop
  events_loop-Known [] ts seen h known = refl
  events_loop-Known (e ∷ es) ts seen h known = elim (events_loop_cases env escrow e es ts seen h) [
    | inl (here, same) ↦ same ∙ events_loop-Known es ts seen h known.1
    | inr (new, same) ↦ absurd (ground (arith, new, known.0))
  ]

  -- The loop has seen to all events, and what it knew before.
  abbrev Seen :
      List SorobanEvent
      → (seen : List String) → (Result (Unit {0}) × History) × List String
      → Type 0
  Seen es seen out = (out.0.0 ≡ ok tt) → Known es out.1 × Grows seen out.1

  events_loop-Seen :
      (es : List SorobanEvent) (ts : List Tracked) (seen : List String) (h : History)
      → length seen + length es ≤ dedupe_limit
      → Seen es seen (events_loop env escrow es ts seen h)
  unfolding events_loop
  events_loop-Seen [] ts seen h room = λ done. (tt, λ x known. known)
  events_loop-Seen (e ∷ es) ts seen h room = elim (events_loop_cases env escrow e es ts seen h) [
    | inl (here, same) ↦ subst (Seen (e ∷ es) seen) (sym same) (λ done.
        let (rest, grows) = events_loop-Seen es ts seen h (omega (arith, room)) done in
        ((grows e.id here, rest), grows))
    | inr (new, same) ↦
        let space : length seen < dedupe_limit = omega (arith, room) in
        let longer = remember-length e.id seen space in
        subst (Seen (e ∷ es) seen) (sym same) (
          ends space
            (λ ts' k. events_loop-Seen es ts' (remember e.id seen) k (omega (arith, room, longer)))
            (process_escrow_event env escrow e ts h))
  ]
    where
      ends :
          length seen < dedupe_limit
          → ((ts' : List Tracked) (k : History)
              → Seen es (remember e.id seen) (events_loop env escrow es ts' (remember e.id seen) k))
          → (x : Result (List Tracked) × History)
          → Seen (e ∷ es) seen (next_events env escrow e es seen x)
      ends space later (err y, k) done = absurd (ground arith)
      ends space later (ok ts', k) done =
          let (rest, grows) = later ts' k done in
          let own = eq_refl e.id in
          (
            (grows e.id (remember-has e.id e.id seen space (ground arith)), rest),
            λ x known. grows x (remember-has e.id x seen space (ground arith)),
          )

  -- If a run of the loop over the events of a poll returned, with room for their identifiers, then the
  -- same events once more, with whatever payments and at whatever time, change nothing and call nothing.
  pub events_loop_again :
      (es : List SorobanEvent) (ts ts' : List Tracked) (seen seen' : List String) (h k j : History)
      → length seen + length es ≤ dedupe_limit
      → events_loop env escrow es ts seen h ≡ ((ok tt, k), seen')
      → events_loop env escrow es ts' seen' j ≡ ((ok tt, j), seen')
  events_loop_again es ts ts' seen seen' h k j room first =
      let known = (events_loop-Seen es ts seen h room (ap (λ x. x.0.0) first)).0 in
      events_loop-Known es ts' seen' j (subst (Known es) (ap (λ x. x.1) first) known)
