-- ===== src/Queues/Exclusion.antt =====
-- At most one transfer at a time for each merchant, as long as none outlasts its lock.
use Prim.Native.String
use mathlib.Core.Option.{some_inj}
use text.Mathlib.TextLemmas.{append_cancel_left}
use dabdub.Prelude.{
  ℕ, suc, ◌+◌, ◌<◌, ◌≤◌, Bool, true, false, Option, none, some, String, List, [], ◌∷◌,
  if◌then◌else◌, str_eq, eq_iff, eq_refl, leb, leb→le, ◌≡◌, refl, sym, ap, ◌∙◌, subst, inl, inr,
  All, length, arith, Bool-cases,
}
use dabdub.Queues.{
  Running, QueuedSettlement, System, JobResult, lock_key, is_free, with_lock, lock_ms, acquire,
  handle, take_running, end_transfer, finish, Event, step, run, running_for,
}

abbrev pub expiry : Running → ℕ
expiry r = r.started_at + lock_ms

-- Whatever time passes, the transfers under way are younger than their locks' 60 seconds.
abbrev pub IsTimely : List Event → System → Type 0
IsTimely [] s = Unit
IsTimely (Event.pass d ∷ es) s =
    All (λ r. s.now + d < expiry r) s.running × IsTimely es (step (Event.pass d) s)
IsTimely (Event.take_job w j ∷ es) s = IsTimely es (step (Event.take_job w j) s)
IsTimely (Event.end_job w ∷ es) s = IsTimely es (step (Event.end_job w) s)

-- The merchant's lock is that of its one transfer.
abbrev Exclusive : (merchant_id : String) → System → Type 0
Exclusive m s =
    All (λ r. s.locks (lock_key m) ≡ some (expiry r)) (running_for m s.running)
    × (length (running_for m s.running) ≤ 1)

abbrev Sound : System → Type 0
Sound s = ((m : String) → Exclusive m s) × All (λ r. s.now < expiry r) s.running

lock_key_inj : (a b : String) → lock_key a ≡ lock_key b → a ≡ b
lock_key_inj a b e = append_cancel_left "lock:settlement:merchant:" a b (
    append_cancel_left "lock:" (String.◌++◌ "lock:settlement:merchant:" a)
      (String.◌++◌ "lock:settlement:merchant:" b) e)

other_lock :
    (m n : String) (value : Option ℕ) (locks : String → Option ℕ)
    → str_eq m n ≡ false
    → with_lock (lock_key n) value locks (lock_key m) ≡ locks (lock_key m)
other_lock m n value locks differ = elim (Bool-cases (str_eq (lock_key m) (lock_key n))) [
  | inl e ↦
      let same = lock_key_inj m n ((eq_iff (lock_key m) (lock_key n)).0 e) in
      absurd (ground (arith, (eq_iff m n).1 same, differ))
  | inr e ↦ rw e refl
]

own_lock :
    (m : String) (value : Option ℕ) (locks : String → Option ℕ)
    → with_lock (lock_key m) value locks (lock_key m) ≡ value
own_lock m value locks = rw (eq_refl (lock_key m)) refl

young_for :
    (P : Running → Type 0) (m : String) (rs : List Running) → All P rs → All P (running_for m rs)
unfolding running_for
young_for P m [] young = tt
young_for P m (r ∷ rs) young = go (str_eq r.merchant_id m) (young_for P m rs young.1)
  where
    go :
        (c : Bool)
        → All P (running_for m rs)
        → All P (if c then r ∷ running_for m rs else running_for m rs)
    go true later = (young.0, later)
    go false later = later

-- Where the lock is free, nothing is under way.
free_none :
    (m : String) (s : System)
    → Sound s
    → is_free s.now (s.locks (lock_key m)) ≡ true
    → running_for m s.running ≡ []
free_none m s (exclusive, young) free =
    go (running_for m s.running) (exclusive m).0
      (young_for (λ r. s.now < expiry r) m s.running young)
  where
    go :
        (rs : List Running)
        → All (λ r. s.locks (lock_key m) ≡ some (expiry r)) rs
        → All (λ r. s.now < expiry r) rs
        → rs ≡ []
    go [] locked young = refl
    go (r ∷ rs) locked young =
        let late : leb (expiry r) s.now ≡ true = ap (is_free s.now) (sym locked.0) ∙ free in
        absurd (omega (arith, leb→le (expiry r) s.now late, young.0))

differ_sym : (m n : String) → str_eq m n ≡ false → str_eq n m ≡ false
differ_sym m n e = elim (Bool-cases (str_eq n m)) [
  | inl same ↦ absurd (ground (arith, (eq_iff m n).1 (sym ((eq_iff n m).0 same)), e))
  | inr apart ↦ apart
]

-- A start, as the other merchants and its own see it.
started-Exclusive :
    (w m : String) (s : System)
    → Sound s
    → is_free s.now (s.locks (lock_key m)) ≡ true
    → (n : String)
    → Exclusive n (record s {
      locks = with_lock (lock_key m) (some (s.now + lock_ms)) s.locks;
      running = record { worker = w; merchant_id = m; started_at = s.now } ∷ s.running;
    })
unfolding running_for
started-Exclusive w m s sound free n = elim (Bool-cases (str_eq m n)) [
  | inl e ↦
      let same : m ≡ n = (eq_iff m n).0 e in
      let alone : running_for n s.running ≡ [] =
        ap (λ x. running_for x s.running) (sym same) ∙ free_none m s sound free in
      let own : with_lock (lock_key m) (some (s.now + lock_ms)) s.locks (lock_key n)
          ≡ some (s.now + lock_ms) =
        ap (λ x. with_lock (lock_key m) (some (s.now + lock_ms)) s.locks (lock_key x)) (sym same)
        ∙ own_lock m (some (s.now + lock_ms)) s.locks in
      rw e (rw alone ((own, tt), omega arith))
  | inr e ↦
      let apart : str_eq n m ≡ false = differ_sym m n e in
      rw e (rw (other_lock n m (some (s.now + lock_ms)) s.locks apart) (sound.0 n))
]

abbrev LeavesSound : JobResult × System → Type 0
LeavesSound (r, s) = Sound s

acquire-Sound : (w m : String) (s : System) → Sound s → Sound (acquire w m s).1
acquire-Sound w m s sound = go (is_free s.now (s.locks (lock_key m))) refl
  where
    go :
        (c : Bool)
        → is_free s.now (s.locks (lock_key m)) ≡ c
        → LeavesSound (
            if c
            then (
              JobResult.started,
              record s {
                locks = with_lock (lock_key m) (some (s.now + lock_ms)) s.locks;
                running = record { worker = w; merchant_id = m; started_at = s.now } ∷ s.running;
              },
            )
            else (JobResult.locked, s))
    go true free = (started-Exclusive w m s sound free, (omega arith, sound.1))
    go false free = sound

handle-Sound :
    (w : String) (j : Option QueuedSettlement) (s : System) → Sound s → Sound (handle w j s).1
unfolding handle
handle-Sound w none s sound = sound
handle-Sound w (some settlement) s sound =
    go settlement.has_payments (acquire-Sound w settlement.merchant_id s sound)
  where
    go :
        (c : Bool)
        → Sound (acquire w settlement.merchant_id s).1
        → LeavesSound (if c then acquire w settlement.merchant_id s else (JobResult.no_payments, s))
    go true started = started
    go false started = sound

-- What ends leaves its merchant with one transfer less, and the others with the same.
abbrev Taken : Running → List Running → List Running → Type 0
Taken r rs rest =
    (m : String)
    → (str_eq r.merchant_id m ≡ true
        → length (running_for m rs) ≡ suc (length (running_for m rest)))
      × (str_eq r.merchant_id m ≡ false → running_for m rs ≡ running_for m rest)

Taken-here : (r : Running) (rs : List Running) → Taken r (r ∷ rs) rs
unfolding running_for
Taken-here r rs m = (λ e. rw e refl, λ e. rw e refl)

Taken-later :
    (x r : Running) (rs rest : List Running) → Taken r rs rest → Taken r (x ∷ rs) (x ∷ rest)
unfolding running_for
Taken-later x r rs rest taken m = elim (Bool-cases (str_eq x.merchant_id m)) [
  | inl c ↦
      (λ e. rw c (ap (λ n. suc n) ((taken m).0 e)), λ e. rw c (ap (λ ys. x ∷ ys) ((taken m).1 e)))
  | inr c ↦ (λ e. rw c ((taken m).0 e), λ e. rw c ((taken m).1 e))
]

take_running-Taken :
    (w : String) (rs : List Running) (r : Running) (rest : List Running)
    → take_running w rs ≡ some (r, rest)
    → Taken r rs rest
unfolding take_running
take_running-Taken w [] r rest e = absurd (ground arith)
take_running-Taken w (x ∷ rs) r rest e =
    go (take_running-Taken w rs) (str_eq x.worker w) (take_running w rs) refl e
  where
    go :
        ((y : Running) (ys : List Running) → take_running w rs ≡ some (y, ys) → Taken y rs ys)
        → (c : Bool) (o : Option (Running × List Running)) → take_running w rs ≡ o
        → (if c then some (x, rs) else elim o as (λ _. Option (Running × List Running)) [
          | none ↦ none
          | some (y, ys) ↦ some (y, x ∷ ys)
        ])
          ≡ some (r, rest)
        → Taken r (x ∷ rs) rest
    go other true o found e =
        subst (λ (p : Running × List Running). Taken p.0 (x ∷ rs) p.1) (some_inj.0 e)
          (Taken-here x rs)
    go other false none found e = absurd (ground arith)
    go other false (some (y, ys)) found e =
        subst (λ (p : Running × List Running). Taken p.0 (x ∷ rs) p.1) (some_inj.0 e)
          (Taken-later x y rs ys (other y ys found))

short_none : (rs : List Running) (n : ℕ) → length rs ≡ suc n → length rs ≤ 1 → n ≡ 0
short_none rs n e short = omega (arith, e, short)

empty_of : (rs : List Running) → length rs ≡ 0 → rs ≡ []
empty_of [] e = refl
empty_of (r ∷ rs) e = absurd (omega (arith, e))

take_running-All :
    (P : Running → Type 0) (w : String) (rs : List Running) (r : Running) (rest : List Running)
    → take_running w rs ≡ some (r, rest)
    → All P rs
    → All P rest
unfolding take_running
take_running-All P w [] r rest e all = absurd (ground arith)
take_running-All P w (x ∷ rs) r rest e all =
    go (take_running-All P w rs) (str_eq x.worker w) (take_running w rs) refl e
  where
    go :
        ((y : Running) (ys : List Running) → take_running w rs ≡ some (y, ys) → All P rs → All P ys)
        → (c : Bool) (o : Option (Running × List Running)) → take_running w rs ≡ o
        → (if c then some (x, rs) else elim o as (λ _. Option (Running × List Running)) [
          | none ↦ none
          | some (y, ys) ↦ some (y, x ∷ ys)
        ])
          ≡ some (r, rest)
        → All P rest
    go other true o found e = subst (λ (p : Running × List Running). All P p.1) (some_inj.0 e) all.1
    go other false none found e = absurd (ground arith)
    go other false (some (y, ys)) found e =
        subst (λ (p : Running × List Running). All P p.1) (some_inj.0 e)
          (all.0, other y ys found all.1)

finish-Sound : (w : String) (s : System) → Sound s → Sound (finish w s)
unfolding finish
finish-Sound w s sound = go (take_running w s.running) refl
  where
    go :
        (o : Option (Running × List Running))
        → take_running w s.running ≡ o
        → Sound (end_transfer o s)
    go none e = sound
    go (some (r, rest)) e =
        (ended, take_running-All (λ x. s.now < expiry x) w s.running r rest e sound.1)
      where
        ended :
            (m : String)
            → Exclusive m (record s {
              locks = with_lock (lock_key r.merchant_id) none s.locks;
              running = rest;
            })
        ended m = elim (Bool-cases (str_eq r.merchant_id m)) [
          | inl c ↦
              let taken = (take_running-Taken w s.running r rest e m).0 c in
              let alone : running_for m rest ≡ [] = empty_of (running_for m rest) (
                short_none (running_for m s.running) (length (running_for m rest)) taken
                  (sound.0 m).1) in
              rw alone (tt, omega arith)
          | inr c ↦
              let same = (take_running-Taken w s.running r rest e m).1 c in
              rw (other_lock m r.merchant_id none s.locks (differ_sym r.merchant_id m c)) (
                subst (λ rs. All (λ x. s.locks (lock_key m) ≡ some (expiry x)) rs × (length rs ≤ 1))
                  same (sound.0 m))
        ]

run-Sound : (es : List Event) (s : System) → IsTimely es s → Sound s → Sound (run es s)
unfolding run step
run-Sound [] s timely sound = sound
run-Sound (Event.pass d ∷ es) s timely sound =
    run-Sound es (step (Event.pass d) s) timely.1 (sound.0, timely.0)
run-Sound (Event.take_job w j ∷ es) s timely sound =
    run-Sound es (step (Event.take_job w j) s) timely (handle-Sound w j s sound)
run-Sound (Event.end_job w ∷ es) s timely sound =
    run-Sound es (step (Event.end_job w) s) timely (finish-Sound w s sound)

-- From a moment at which nothing is under way, whatever jobs are taken by whatever workers, and however they end:
-- if each transfer under way always stays younger than the 60 seconds of its lock, then no merchant ever has two
-- transfers under way at once.
pub run_exclusive :
    (es : List Event) (s : System)
    → s.running ≡ []
    → IsTimely es s
    → (m : String) → length (running_for m (run es s).running) ≤ 1
unfolding running_for
run_exclusive es s idle timely m = ((run-Sound es s timely start).0 m).1
  where
    start : Sound s
    start = rw idle ((λ n. (tt, omega arith)), tt)
