-- ===== src/Queues/Tests.antt =====
-- Runs of the settlement queue, and its theorem at a concrete input.
use dabdub.Prelude.{◌≤◌, ◌≡◌, refl, true, none, some, List, [], ◌∷◌, length, arith}
use dabdub.Queues.{
  QueuedSettlement, System, Event, step, run, running_for, handle, finish, take_running,
}
use dabdub.Queues.Exclusion.{run_exclusive}

abbrev idle : System
idle = record { now = 0; locks = λ key. none; running = [] }

abbrev shop : QueuedSettlement
shop = record { merchant_id = "m1"; has_payments = true }

-- The second worker is refused, and takes the job once the first has ended.
abbrev in_turn : List Event
in_turn =
    Event.take_job "a" (some shop)
    ∷ Event.pass 30_000
    ∷ Event.take_job "b" (some shop)
    ∷ Event.end_job "a"
    ∷ Event.take_job "b" (some shop)
    ∷ []

run_exclusive_example : length (running_for "m1" (run in_turn idle).running) ≤ 1
unfolding step handle finish take_running
run_exclusive_example = run_exclusive in_turn idle refl ((omega arith, tt), tt) "m1"

-- A transfer that takes longer than a minute is joined by a second; when it ends, it deletes the second
-- one's lock, and a third starts.
abbrev outlasting : List Event
outlasting =
    Event.take_job "a" (some shop)
    ∷ Event.pass 60_000
    ∷ Event.take_job "b" (some shop)
    ∷ Event.end_job "a"
    ∷ Event.take_job "c" (some shop)
    ∷ []

two_at_once : length (running_for "m1" (run outlasting idle).running) ≡ 2
unfolding run step handle finish take_running running_for
two_at_once = refl
