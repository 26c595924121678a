-- ===== src/Webhooks/Delivery/Schedule.antt =====
-- The waits of a delivery that keeps failing.
use dabdub.Prelude.{
  ℕ, zero, suc, ◌+◌, ◌≤◌, ◌≡◌, List, [], ◌∷◌, ◌++◌, some, refl, ap, arith, length, get_elem?,
  if◌then◌else◌, length-append, subst,
}
use dabdub.Webhooks.Delivery.{has_retry, next_delay}

-- The delays queued from an attempt on, when every delivery fails.
unfoldable pub waits : (fuel : ℕ) → (schedule : List ℕ) → (attempt_number : ℕ) → List ℕ
waits zero schedule attempt = []
waits (suc fuel) schedule attempt =
    let rest = waits fuel schedule (attempt + 1) in
    if has_retry schedule attempt then next_delay schedule attempt ∷ rest else []

-- All items but the last.
abbrev pub but_last : List ℕ → List ℕ
but_last [] = []
but_last (x ∷ []) = []
but_last (x ∷ y ∷ ys) = x ∷ but_last (y ∷ ys)

get_elem?-append :
    (xs : List ℕ) (y : ℕ) (ys : List ℕ) → get_elem? (xs ++ y ∷ ys) (length xs) ≡ some y
get_elem?-append [] y ys = refl
get_elem?-append (x ∷ xs) y ys = get_elem?-append xs y ys

append-cons : (xs : List ℕ) (y : ℕ) (ys : List ℕ) → (xs ++ y ∷ []) ++ ys ≡ xs ++ y ∷ ys
append-cons [] y ys = refl
append-cons (x ∷ xs) y ys = ap (λ zs. x ∷ zs) (append-cons xs y ys)

waits_from :
    (fuel : ℕ) (before ds : List ℕ)
    → length ds ≤ fuel
    → waits fuel (before ++ ds) (suc (length before)) ≡ but_last ds
unfolding waits
waits_from zero before [] enough = refl
waits_from zero before (d ∷ ds) enough = absurd (omega (arith, enough))
waits_from (suc fuel) before [] enough = let size = length-append before [] in ground arith
waits_from (suc fuel) before (d ∷ []) enough =
    let size = length-append before (d ∷ []) in ground arith
waits_from (suc fuel) before (d ∷ d' ∷ ds) enough =
    let size = length-append before (d ∷ d' ∷ ds) in
    let first = get_elem?-append before d (d' ∷ ds) in
    let rest = waits_from fuel (before ++ d ∷ []) (d' ∷ ds) (omega (arith, enough)) in
    let shift = append-cons before d (d' ∷ ds) in
    let far : suc (length (before ++ d ∷ [])) ≡ suc (length before) + 1 =
      omega (arith, length-append before (d ∷ [])) in
    let rest' : waits fuel (before ++ d ∷ d' ∷ ds) (suc (length before) + 1) ≡ but_last (d' ∷ ds) =
      subst (λ (n : ℕ). waits fuel (before ++ d ∷ d' ∷ ds) n ≡ but_last (d' ∷ ds)) far
        (subst
          (λ (xs : List ℕ). waits fuel xs (suc (length (before ++ d ∷ []))) ≡ but_last (d' ∷ ds))
          shift rest) in
    ground arith

-- With as much fuel as the schedule is long, a delivery that fails every time is tried once, and
-- then once after each delay of the schedule but the last, in order.
waits_all_but_last :
    (fuel : ℕ) (schedule : List ℕ)
    → length schedule ≤ fuel
    → waits fuel schedule 1 ≡ but_last schedule
waits_all_but_last fuel schedule enough = waits_from fuel [] schedule enough
