-- ===== src/Settlements/Batching/Sorting.antt =====
-- The order in which `flushMerchantBatch` goes through a merchant's payments.
use mathlib.Core.List.{Perm}
use mathlib.Core.List.Perm
use dabdub.Prelude.{◌≤◌, inl, inr, List, [], ◌∷◌, arith, All, Bool-cases, leb, leb→le}
use dabdub.Platform.Entities.{Payment}
use dabdub.Settlements.Batching.{time_of, insert_by_time, sort_by_time}

-- Every payment comes before the later ones.
abbrev pub IsSorted : List Payment → Type 0
IsSorted [] = Unit
IsSorted (p ∷ ps) = All (λ q. time_of p ≤ time_of q) ps × IsSorted ps

insert_by_time-perm : (p : Payment) (ps : List Payment) → Perm (insert_by_time p ps) (p ∷ ps)
unfolding insert_by_time
insert_by_time-perm p [] = Perm.refl _
insert_by_time-perm p (q ∷ qs) = elim (Bool-cases (leb (time_of p) (time_of q))) [
  | inl before ↦ rw before (Perm.refl _)
  | inr after ↦ rw after (Perm.trans (Perm.cons q (insert_by_time-perm p qs)) (Perm.swap p q qs))
]

pub sort_by_time-perm : (ps : List Payment) → Perm (sort_by_time ps) ps
unfolding sort_by_time
sort_by_time-perm [] = Perm.refl _
sort_by_time-perm (p ∷ ps) =
    Perm.trans (insert_by_time-perm p (sort_by_time ps)) (Perm.cons p (sort_by_time-perm ps))

module _ (P : Payment → Type 0) where
  insert_by_time-All :
      (p : Payment) (ps : List Payment) → P p → All P ps → All P (insert_by_time p ps)
  unfolding insert_by_time
  insert_by_time-All p [] h hs = (h, tt)
  insert_by_time-All p (q ∷ qs) h hs = ground (arith, insert_by_time-All p qs h hs.1)

  pub sort_by_time-All : (ps : List Payment) → All P ps → All P (sort_by_time ps)
  unfolding sort_by_time
  sort_by_time-All [] h = tt
  sort_by_time-All (p ∷ ps) h = insert_by_time-All p (sort_by_time ps) h.0 (sort_by_time-All ps h.1)

All-trans :
    (p q : Payment) (qs : List Payment)
    → time_of p ≤ time_of q
    → All (λ r. time_of q ≤ time_of r) qs
    → All (λ r. time_of p ≤ time_of r) qs
All-trans p q [] h hs = tt
All-trans p q (r ∷ rs) h hs = (omega arith, All-trans p q rs h hs.1)

insert_by_time-IsSorted :
    (p : Payment) (ps : List Payment) → IsSorted ps → IsSorted (insert_by_time p ps)
unfolding insert_by_time
insert_by_time-IsSorted p [] h = (tt, tt)
insert_by_time-IsSorted p (q ∷ qs) h = elim (Bool-cases (leb (time_of p) (time_of q))) [
  | inl before ↦ let le = leb→le _ _ before in rw before ((le, All-trans p q qs le h.0), h)
  | inr after ↦ rw after (
    insert_by_time-All (λ r. time_of q ≤ time_of r) p qs (ground arith) h.0,
    insert_by_time-IsSorted p qs h.1,
  )
]

pub sort_by_time-IsSorted : (ps : List Payment) → IsSorted (sort_by_time ps)
unfolding sort_by_time
sort_by_time-IsSorted [] = tt
sort_by_time-IsSorted (p ∷ ps) =
    insert_by_time-IsSorted p (sort_by_time ps) (sort_by_time-IsSorted ps)
