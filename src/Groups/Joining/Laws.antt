-- ===== src/Groups/Joining/Laws.antt =====
-- What joining checks and writes.
use dabdub.Prelude.{
  ◌≡◌, ◌⊎◌, inl, inr, refl, ap, sym, subst, ◌∙◌, ℕ, ◌+◌, ◌≤◌, Bool, true, false, Option, none, some,
  String, List, [], ◌∷◌, ◌++◌, arith, str_eq, ◌&&◌, if◌then◌else◌, if_cases, both_true, eq_refl,
  leb, Bool-cases,
}
use mathlib.Core.Option.{some_inj}
use dabdub.Platform.Actions.{Result, ok, err, Error}
use dabdub.Platform.Stores.{checked, after_write}
use dabdub.Groups.Store.{
  GroupMemberRole, GroupMember, Group, Store, GroupResponse, has_code, is_live, find_by_id,
  find_by_invite_code, count_members, is_member, add_member, respond,
}
use dabdub.Groups.Service.{Outside}
use dabdub.Groups.Joining.{gate, check_gate, assert_can_join, join_group, join_by_invite_code}

abbrev pub row_of : (group_id user_id : String) → GroupMember
row_of g u = record { group_id = g; user_id = u; role = GroupMemberRole.member }

abbrev pub with_row : (group_id user_id : String) → Store → Store
with_row g u s = record s { members = s.members ++ row_of g u ∷ [] }

count_members-append :
    (g u : String) (ms : List GroupMember)
    → count_members g (ms ++ row_of g u ∷ []) ≡ count_members g ms + 1
unfolding count_members
count_members-append g u [] = ap (λ b. if b then 1 else 0) (eq_refl g)
count_members-append g u (m ∷ ms) =
    let rest = count_members-append g u ms in
    go (str_eq m.group_id g) (count_members g (ms ++ row_of g u ∷ [])) (count_members g ms) rest
  where
    go :
        (b : Bool) (after before : ℕ)
        → after ≡ before + 1
        → (if b then after + 1 else after) ≡ (if b then before + 1 else before) + 1
    go b after before e = ground arith

-- A group that its code finds is found by its id, as it is not deleted.
invite-find_by_id :
    (code : String) (gs : List Group) (g : Group)
    → find_by_invite_code code gs ≡ some g
    → (x : Group) × (find_by_id g.id gs ≡ some x)
unfolding find_by_invite_code find_by_id
invite-find_by_id code [] g e = absurd (ground arith)
invite-find_by_id code (o ∷ os) g e = elim (if_cases (has_code code o && is_live o) _ _ _ e) [
  | inl (here, same) ↦ elim (Bool-cases (str_eq o.id g.id && is_live o)) [
    | inl at ↦ (o, taken at)
    | inr past ↦ absurd (no_other same (both_true (has_code code o) (is_live o) here).1 past)
  ]
  | inr (there, rest) ↦ elim (Bool-cases (str_eq o.id g.id && is_live o)) [
    | inl at ↦ (o, taken at)
    | inr past ↦
        let (x, found) = invite-find_by_id code os g rest in
        (x, ap (λ b. if b then some o else find_by_id g.id os) past ∙ found)
  ]
]
  where
    taken :
        str_eq o.id g.id && is_live o ≡ true
        → (if str_eq o.id g.id && is_live o then some o else find_by_id g.id os) ≡ some o
    taken at = ap (λ b. if b then some o else find_by_id g.id os) at

    no_other : some o ≡ some g → is_live o ≡ true → str_eq o.id g.id && is_live o ≡ false → ⊥
    no_other same live past =
        let own : str_eq o.id g.id ≡ true =
          ap (str_eq o.id) (sym (ap (λ (y : Group). y.id) (some_inj.0 same))) ∙ eq_refl o.id in
        ground (arith, own, live, past)

assert_can_join-ok :
    (out : Outside) (g : Group) (user : String) (s : Store)
    → assert_can_join out g user s ≡ ok tt
    → (is_member g.id user s.members ≡ false)
      × (leb g.max_members (count_members g.id s.members) ≡ false)
      × (check_gate out user (gate g) ≡ ok tt)
unfolding assert_can_join
assert_can_join-ok out g user s e = elim (if_cases (is_member g.id user s.members) _ _ _ e) [
  | inl (already, bad) ↦ absurd (ground arith)
  | inr (new, rest) ↦
      elim (if_cases (leb g.max_members (count_members g.id s.members)) _ _ _ rest) [
        | inl (full, bad) ↦ absurd (ground arith)
        | inr (space, gated) ↦ (new, space, gated)
      ]
]

add_member-new :
    (g u : String) (s : Store)
    → is_member g u s.members ≡ false
    → add_member g u GroupMemberRole.member s ≡ (ok tt, with_row g u s)
unfolding add_member
add_member-new g u s new =
    ap
      (λ (b : Bool).
        if b then (err (Error.failure "IDX_GROUP_MEMBER_UNIQUE"), s) else (ok tt, with_row g u s))
      new

respond-found :
    (id : String) (s : Store) (g : Group)
    → find_by_id id s.groups ≡ some g
    → respond id s ≡ (ok (record { group = g; member_count = count_members id s.members }), s)
unfolding respond
respond-found id s g e =
    ap
      (λ (o : Option Group). elim o as (λ _. Result GroupResponse × Store) [
        | none ↦ (err (Error.failure "Cannot read properties of null"), s)
        | some x ↦ (ok (record { group = x; member_count = count_members id s.members }), s)
      ])
      e

-- The user became a member by the invite code of a group that is not deleted: no member of it
-- before, with room for one more, and past its gate.
abbrev pub Joined :
    Outside → (invite user_id : String) → Store → Result GroupResponse × Store → Type 0
Joined out invite user s (r, s') =
    (g : Group) × (resp : GroupResponse) × (find_by_invite_code invite s.groups ≡ some g)
    × (is_member g.id user s.members ≡ false)
    × (check_gate out user (gate g) ≡ ok tt)
    × (s' ≡ with_row g.id user s)
    × (r ≡ ok resp)
    × (resp.member_count ≡ count_members g.id s.members + 1)
    × (count_members g.id s'.members ≤ g.max_members)

join_group-Joined :
    (out : Outside) (invite user : String) (s : Store) (g : Group)
    → find_by_invite_code invite s.groups ≡ some g
    → assert_can_join out g user s ≡ ok tt
    → Joined out invite user s (join_group out g user s)
unfolding join_group
join_group-Joined out invite user s g found fine =
    let (new, space, gated) = assert_can_join-ok out g user s fine in
    let (x, live) = invite-find_by_id invite s.groups g found in
    let more = count_members-append g.id user s.members in
    let resp : GroupResponse = record {
      group = x;
      member_count = count_members g.id (with_row g.id user s).members;
    } in
    let ends : join_group out g user s ≡ (ok resp, with_row g.id user s) =
      ap
        (λ (r : Result (Unit {0})).
          checked r
            (λ _. after_write (add_member g.id user GroupMemberRole.member) (λ _. respond g.id)) s)
        fine
      ∙ ap (λ (w : Result (Unit {0}) × Store). checked w.0 (λ _. respond g.id) w.1)
          (add_member-new g.id user s new)
      ∙ respond-found g.id (with_row g.id user s) x live in
    subst (Joined out invite user s) (sym ends)
      (g, resp, found, new, gated, refl, refl, more, ground arith)

join_group-err :
    (out : Outside) (user : String) (s : Store) (g : Group) (e : Error)
    → assert_can_join out g user s ≡ err e
    → join_group out g user s ≡ (err e, s)
unfolding join_group
join_group-err out user s g e bad =
    ap
      (λ (r : Result (Unit {0})).
        checked r
          (λ _. after_write (add_member g.id user GroupMemberRole.member) (λ _. respond g.id)) s)
      bad

-- Joining either throws and leaves the store as it was, or the user becomes a member, once, of a group
-- that was not full and whose gate the user passes; then the group has no more members than it allows,
-- and the response counts the new one.
pub join_by_invite_code-Joined :
    (out : Outside) (invite user : String) (s : Store)
    → let end = join_by_invite_code out invite user s in
      ((e : Error) × (end ≡ (err e, s))) ⊎ Joined out invite user s end
unfolding join_by_invite_code
join_by_invite_code-Joined out invite user s = go (find_by_invite_code invite s.groups) refl
  where
    joining :
        (g : Group) (r : Result (Unit {0}))
        → find_by_invite_code invite s.groups ≡ some g
        → assert_can_join out g user s ≡ r
        → ((e : Error) × (join_group out g user s ≡ (err e, s)))
          ⊎ Joined out invite user s (join_group out g user s)
    joining g (ok tt) found fine = inr (join_group-Joined out invite user s g found fine)
    joining g (err e) found bad = inl (e, join_group-err out user s g e bad)

    go :
        (x : Option Group)
        → find_by_invite_code invite s.groups ≡ x
        → let end = elim x as (λ _. Result GroupResponse × Store) [
          | none ↦ (err (Error.not_found "Invalid invite code"), s)
          | some g ↦ join_group out g user s
        ] in
          ((e : Error) × (end ≡ (err e, s))) ⊎ Joined out invite user s end
    go none found = inl (Error.not_found "Invalid invite code", refl)
    go (some g) found = joining g (assert_can_join out g user s) found refl
