-- ===== src/Settlements/Batching/Groups.antt =====
-- The map from merchants to payments that `batchSmallConfirmedPayments` builds.
use mathlib.Core.List.{Perm, flatten, append_assoc, append-nil, perm_middle}
use mathlib.Core.List.Perm
use dabdub.Prelude.{
  ◌≡◌, ◌≢◌, refl, sym, inl, inr, String, List, [], ◌∷◌, ◌++◌, map, arith, length, ◌<◌, All,
  All-append, Bool-cases, str_eq, eq_iff, subst,
}
use dabdub.Platform.Entities.{Payment}
use dabdub.Settlements.Batching.{Groups, add_to_group, group_by_merchant}

abbrev pub members : Groups → List Payment
members gs = flatten (map (λ g. g.1) gs)

-- No group has this key.
abbrev pub Lacks : String → Groups → Type 0
Lacks m gs = All (λ g. g.0 ≢ m) gs

-- A group is not empty and holds payments of one merchant, its key; no two groups share a key.
abbrev pub IsGrouped : Groups → Type 0
IsGrouped [] = Unit
IsGrouped ((m, ps) ∷ gs) =
    (0 < length ps) × All (λ p. p.merchant_id ≡ m) ps × Lacks m gs × IsGrouped gs

add_to_group-perm :
    (p : Payment) (gs : Groups) → Perm (members (add_to_group p gs)) (p ∷ members gs)
unfolding add_to_group flatten
add_to_group-perm p [] = Perm.refl _
add_to_group-perm p ((m, ps) ∷ gs) = elim (Bool-cases (str_eq m p.merchant_id)) [
  | inl same ↦ rw same (
      subst (λ l. Perm l (p ∷ ps ++ members gs)) (sym (append_assoc ps (p ∷ []) (members gs)))
        (perm_middle ps (members gs)))
  | inr other ↦
      rw other
        (Perm.trans (Perm.append_left ps (add_to_group-perm p gs)) (perm_middle ps (members gs)))
]

group_by_merchant-perm :
    (gs : Groups) (ps : List Payment) → Perm (members (group_by_merchant gs ps)) (ps ++ members gs)
unfolding group_by_merchant
group_by_merchant-perm gs [] = Perm.refl _
group_by_merchant-perm gs (p ∷ ps) =
    Perm.trans (group_by_merchant-perm (add_to_group p gs) ps)
      (Perm.trans (Perm.append_left ps (add_to_group-perm p gs)) (perm_middle ps (members gs)))

add_to_group-Lacks :
    (m : String) (p : Payment) (gs : Groups)
    → Lacks m gs
    → p.merchant_id ≢ m
    → Lacks m (add_to_group p gs)
unfolding add_to_group
add_to_group-Lacks m p [] h ne = (ne, tt)
add_to_group-Lacks m p ((k, ps) ∷ gs) h ne = ground (arith, add_to_group-Lacks m p gs h.1 ne)

add_to_group-IsGrouped : (p : Payment) (gs : Groups) → IsGrouped gs → IsGrouped (add_to_group p gs)
unfolding add_to_group
add_to_group-IsGrouped p [] h = (omega arith, (refl, tt), tt, tt)
add_to_group-IsGrouped p ((m, ps) ∷ gs) (n, one, lacks, h) =
    elim (Bool-cases (str_eq m p.merchant_id)) [
      | inl same ↦
          rw same
            (length-pos ps, All-append _ ps (p ∷ []) one (sym ((eq_iff _ _).0 same), tt), lacks, h)
      | inr other ↦ rw other (
        n,
        one,
        add_to_group-Lacks m p gs lacks (λ e. ground (arith, eq_iff m p.merchant_id)),
        add_to_group-IsGrouped p gs h,
      )
    ]
  where
    length-pos : (qs : List Payment) → 0 < length (qs ++ p ∷ [])
    length-pos [] = omega arith
    length-pos (q ∷ qs) = omega arith

group_by_merchant-IsGrouped :
    (gs : Groups) (ps : List Payment) → IsGrouped gs → IsGrouped (group_by_merchant gs ps)
unfolding group_by_merchant
group_by_merchant-IsGrouped gs [] h = h
group_by_merchant-IsGrouped gs (p ∷ ps) h =
    group_by_merchant-IsGrouped (add_to_group p gs) ps (add_to_group-IsGrouped p gs h)

-- The groups that `batchSmallConfirmedPayments` makes of the payments it found hold each of these
-- exactly once, no group is empty, every payment stands in the group of its own merchant, and no
-- merchant has two groups.
group_by_merchant_partition :
    (ps : List Payment)
    → Perm (members (group_by_merchant [] ps)) ps × IsGrouped (group_by_merchant [] ps)
unfolding flatten
group_by_merchant_partition ps = (
  subst (λ l. Perm (members (group_by_merchant [] ps)) l) (append-nil ps)
      (group_by_merchant-perm [] ps),
  group_by_merchant-IsGrouped [] ps tt,
)

-- What holds of every payment holds of every payment of every group.
module _ (P : Payment → Type 0) where
  add_to_group-All :
      (p : Payment) (gs : Groups)
      → P p
      → All (λ g. All P g.1) gs
      → All (λ g. All P g.1) (add_to_group p gs)
  unfolding add_to_group
  add_to_group-All p [] hp h = ((hp, tt), tt)
  add_to_group-All p ((m, ps) ∷ gs) hp (hs, h) =
      ground (arith, add_to_group-All p gs hp h, All-append P ps (p ∷ []) hs)

  pub group_by_merchant-All :
      (gs : Groups) (ps : List Payment)
      → All (λ g. All P g.1) gs
      → All P ps
      → All (λ g. All P g.1) (group_by_merchant gs ps)
  unfolding group_by_merchant
  group_by_merchant-All gs [] h hs = h
  group_by_merchant-All gs (p ∷ ps) h (hp, hs) =
      group_by_merchant-All (add_to_group p gs) ps (add_to_group-All p gs hp h) hs
