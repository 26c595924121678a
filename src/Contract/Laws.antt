-- ===== src/Contract/Laws.antt =====
-- The mirror against a switch that is on or off and logs each change.
use dabdub.Prelude.{
  ◌≡◌, refl, subst, ℕ, String, Bool, true, false, Option, none, some, List, [], ◌∷◌, ◌++◌, sym,
}
use mathlib.Core.List.{append-nil, append_assoc}
use dabdub.Contract.{
  ContractEvent, ContractError, SorobanService, Outcome, pause, unpause, deposit, release, refund,
}

-- A call of the service.
pub data Command : Type 0 where
  pause_at unpause_at : (admin : String) → (now : ℕ) → Command
  deposit_from : (address amount : String) → Command
  release_to refund_to : (payment_id address : String) → Command

unfoldable pub step : Command → SorobanService → Outcome
unfolding pause unpause deposit release refund
step (Command.pause_at a t) s = (none, pause a t s)
step (Command.unpause_at a t) s = (none, unpause a t s)
step (Command.deposit_from a x) s = deposit a x s
step (Command.release_to p a) s = release p a s
step (Command.refund_to p a) s = refund p a s

-- The outcomes of calls made one after the other, and the service after them.
unfoldable pub run : List Command → SorobanService → List (Option ContractError) × SorobanService
unfolding step
run [] s = ([], s)
run (c ∷ cs) s = let (e, s') = step c s in let (es, end) = run cs s' in (e ∷ es, end)

-- What the switch promises: all it keeps is whether it is on. Its answer to a call, its new
-- position and the event that it logs.
abbrev pub turned : Bool → Command → Option ContractError × Bool × List ContractEvent
turned true (Command.pause_at a t) = (none, true, [])
turned false (Command.pause_at a t) = (none, true, ContractEvent.contract_paused a t ∷ [])
turned true (Command.unpause_at a t) = (none, false, ContractEvent.contract_unpaused a t ∷ [])
turned false (Command.unpause_at a t) = (none, false, [])
turned true _ = (some ContractError.contract_paused_error, true, [])
turned false _ = (none, false, [])

abbrev pub answers : Bool → List Command → List (Option ContractError)
answers on [] = []
answers on (c ∷ cs) = (turned on c).0 ∷ answers (turned on c).1 cs

abbrev pub position : Bool → List Command → Bool
position on [] = on
position on (c ∷ cs) = position (turned on c).1 cs

abbrev pub changes : Bool → List Command → List ContractEvent
changes on [] = []
changes on (c ∷ cs) = (turned on c).2 ++ changes (turned on c).1 cs

-- The service that one call leaves, and its answer, are what the switch promises.
abbrev pub Turned : Bool → List ContractEvent → Command → Outcome → Type 0
Turned on log c (e, s) =
    let out = turned on c in
    (e ≡ out.0) × (s.paused ≡ out.1) × (s.locked ≡ false) × (s.event_log ≡ log ++ out.2)

idle_step-Turned :
    (c : Command) (on : Bool) (log : List ContractEvent)
    → Turned on log c (step c (record { paused = on; locked = false; event_log = log }))
unfolding step
idle_step-Turned (Command.pause_at a t) true log = (refl, refl, refl, sym (append-nil log))
idle_step-Turned (Command.pause_at a t) false log = (refl, refl, refl, refl)
idle_step-Turned (Command.unpause_at a t) true log = (refl, refl, refl, refl)
idle_step-Turned (Command.unpause_at a t) false log = (refl, refl, refl, sym (append-nil log))
idle_step-Turned (Command.deposit_from a x) true log = (refl, refl, refl, sym (append-nil log))
idle_step-Turned (Command.deposit_from a x) false log = (refl, refl, refl, sym (append-nil log))
idle_step-Turned (Command.release_to p a) true log = (refl, refl, refl, sym (append-nil log))
idle_step-Turned (Command.release_to p a) false log = (refl, refl, refl, sym (append-nil log))
idle_step-Turned (Command.refund_to p a) true log = (refl, refl, refl, sym (append-nil log))
idle_step-Turned (Command.refund_to p a) false log = (refl, refl, refl, sym (append-nil log))

step-Turned :
    (c : Command) (s : SorobanService) → s.locked ≡ false → Turned s.paused s.event_log c (step c s)
step-Turned c s free =
    subst (λ l. Turned s.paused s.event_log c (step c (record s { locked = l }))) (sym free)
      (idle_step-Turned c s.paused s.event_log)

-- Calls that come one after the other are answered as the switch promises: `deposit`, `release` and
-- `refund` are refused exactly while it is on, no call finds the lock taken, and the log has one more
-- event for each change of the switch, so that a pause of a paused contract leaves none.
pub run_refines :
    (cs : List Command) (s : SorobanService)
    → s.locked ≡ false
    → let (es, end) = run cs s in
      (es ≡ answers s.paused cs)
      × (end.paused ≡ position s.paused cs)
      × (end.locked ≡ false)
      × (end.event_log ≡ s.event_log ++ changes s.paused cs)
unfolding run
run_refines [] s free = (refl, refl, free, sym (append-nil s.event_log))
run_refines (c ∷ cs) s free =
    let (e, on, unlocked, log) = step-Turned c s free in
    let (es, last, free', logs) = run_refines cs (step c s).1 unlocked in
    let split = append_assoc s.event_log (turned s.paused c).2 (changes (turned s.paused c).1 cs) in
    (cc, cc, free', cc)
