-- ===== src/Contract/Tests.antt =====
-- Runs of the contract's mirror, and its theorem at a concrete input.
use dabdub.Prelude.{◌≡◌, refl, ◌++◌, false, List, [], ◌∷◌}
use dabdub.Contract.{initial}
use dabdub.Contract.Laws.{Command, run, answers, position, changes, run_refines}

abbrev incident : List Command
incident =
    Command.deposit_from "GCUS" "5"
    ∷ Command.pause_at "ada" 10
    ∷ Command.pause_at "bob" 11
    ∷ Command.release_to "p1" "GSHOP"
    ∷ Command.unpause_at "ada" 20
    ∷ Command.refund_to "p1" "GCUS"
    ∷ []

run_refines_example :
    let (es, end) = run incident initial in
    (es ≡ answers false incident)
    × (end.paused ≡ position false incident)
    × (end.locked ≡ false)
    × (end.event_log ≡ [] ++ changes false incident)
run_refines_example = run_refines incident initial refl
