-- ===== src/Queues.antt =====
-- The lock of the settlement queue: `SettlementQueueProcessor.handle` of
-- backend/src/queues/queue.processors.ts. Several workers take jobs at once; what one job does is two moves, to
-- take the lock and start the transfer, and to end it and delete the lock, with time passing between.
-- Times are milliseconds.
pub mod Exclusion
pub mod Retrying
mod Tests
use Prim.Native.String
use dabdub.Prelude.{
  ℕ, ◌+◌, Bool, true, false, Option, none, some, String, List, [], ◌∷◌, if◌then◌else◌, str_eq, leb,
}

-- A transfer that is under way.
pub record Running : Type 0 where
  pub worker : String
  pub merchant_id : String
  pub started_at : ℕ

-- The settlement of a job, as far as the processor looks at it.
pub record QueuedSettlement : Type 0 where
  pub merchant_id : String
  pub has_payments : Bool

pub record System : Type 0 where
  pub now : ℕ
  pub locks : (key : String) → Option ℕ  -- when each lock expires
  pub running : List Running

pub data JobResult : Type 0 where
  not_found no_payments started locked : JobResult

abbrev pub lock_key : (merchant_id : String) → String
lock_key merchant_id = String.◌++◌ "lock:" (String.◌++◌ "lock:settlement:merchant:" merchant_id)

-- A lock that has expired is gone.
abbrev pub is_free : (now : ℕ) → Option ℕ → Bool
is_free now none = true
is_free now (some expires_at) = leb expires_at now

abbrev pub with_lock : (key : String) → Option ℕ → (String → Option ℕ) → String → Option ℕ
with_lock key value locks other = if str_eq other key then value else locks other

abbrev pub lock_ms : ℕ
lock_ms = 60_000

-- `set(key, 'locked', 'EX', 60, 'NX')` and the start of `executeFiatTransfer`; or the exception.
abbrev pub acquire : (worker merchant_id : String) → System → JobResult × System
acquire worker merchant_id s =
    if is_free s.now (s.locks (lock_key merchant_id))
    then (
      JobResult.started,
      record s {
        locks = with_lock (lock_key merchant_id) (some (s.now + lock_ms)) s.locks;
        running =
            record { worker = worker; merchant_id = merchant_id; started_at = s.now } ∷ s.running;
      },
    )
    else (JobResult.locked, s)

-- A job up to the transfer.
unfoldable pub handle : (worker : String) → Option QueuedSettlement → System → JobResult × System
handle worker none s = (JobResult.not_found, s)
handle worker (some settlement) s =
    if settlement.has_payments
    then acquire worker settlement.merchant_id s
    else (JobResult.no_payments, s)

-- The transfer of a worker, and the others.
unfoldable pub take_running : (worker : String) → List Running → Option (Running × List Running)
take_running worker [] = none
take_running worker (r ∷ rs) =
    let found = take_running worker rs in
    if str_eq r.worker worker
    then some (r, rs)
    else elim found [ none ↦ none | some (x, rest) ↦ some (x, r ∷ rest) ]

abbrev pub end_transfer : Option (Running × List Running) → System → System
end_transfer none s = s
end_transfer (some (r, rest)) s = record s {
  locks = with_lock (lock_key r.merchant_id) none s.locks;
  running = rest;
}

-- The `finally`: however the transfer ended, the lock is deleted, whoever holds it by now.
unfoldable pub finish : (worker : String) → System → System
unfolding take_running
finish worker s = end_transfer (take_running worker s.running) s

pub data Event : Type 0 where
  pass : (milliseconds : ℕ) → Event
  take_job : (worker : String) → Option QueuedSettlement → Event
  end_job : (worker : String) → Event

unfoldable pub step : Event → System → System
unfolding handle finish
step (Event.pass d) s = record s { now = s.now + d }
step (Event.take_job worker settlement) s = (handle worker settlement s).1
step (Event.end_job worker) s = finish worker s

unfoldable pub run : List Event → System → System
unfolding step
run [] s = s
run (e ∷ es) s = run es (step e s)

-- The transfers under way for a merchant.
unfoldable pub running_for : (merchant_id : String) → List Running → List Running
running_for m [] = []
running_for m (r ∷ rs) =
    let rest = running_for m rs in if str_eq r.merchant_id m then r ∷ rest else rest
