-- ===== src/Groups/Laws.antt =====
-- Who may change a group, and what joining checks.
use dabdub.Prelude.{
  ◌≡◌, ◌≢◌, ◌⊎◌, inl, inr, refl, ap, sym, subst, ◌∙◌, ℕ, true, Option, none, some, String, List, [],
  ◌∷◌, arith, Option-cases, str_eq, ◌&&◌, eq_iff, if◌then◌else◌, if_cases, both_true,
}
use mathlib.Core.Option.{some_inj}
use mathlib.Core.List.{Mem, mem-cons_self, mem-cons_of_mem}
use dabdub.Platform.Actions.{Result, ok, err, Error}
use dabdub.Platform.Stores.{StoreAction, checked}
use dabdub.Groups.Store.{GroupMemberRole, GroupMember, Group, Store, find_by_id, find_member}
use dabdub.Groups.Service.{
  UpdateGroupDto, not_found, is_manager, assert_owner_or_admin, update_group, delete_group,
  generate_invite_code, set_token_gate, remove_token_gate,
}

-- The calls that change a group.
pub data Change : Type 0 where
  update : UpdateGroupDto → Change
  delete : (now : ℕ) → Change
  new_invite_code : String → Change
  set_gate : (token : String) → (least : ℕ) → Change
  remove_gate : Change

-- The store after a call, whatever it returned or threw.
unfoldable pub change : Change → (id user_id : String) → Store → Store
unfolding update_group delete_group generate_invite_code set_token_gate remove_token_gate
change (Change.update dto) id user s = (update_group id dto user s).1
change (Change.delete t) id user s = (delete_group id t user s).1
change (Change.new_invite_code c) id user s = (generate_invite_code id c user s).1
change (Change.set_gate token least) id user s = (set_token_gate id token least user s).1
change Change.remove_gate id user s = (remove_token_gate id user s).1

-- The store has a row that makes the user the group's owner or an admin of it.
abbrev pub Manages : (id user_id : String) → List GroupMember → Type 0
Manages id user ms =
    (m : GroupMember) × Mem m ms
    × (m.group_id ≡ id)
    × (m.user_id ≡ user)
    × (m.role ≢ GroupMemberRole.member)

managed_by : (m : GroupMember) → is_manager (some m) ≡ true → m.role ≢ GroupMemberRole.member
managed_by m manager plain = ground arith

find_member-Mem :
    (id user : String) (ms : List GroupMember) (m : GroupMember)
    → find_member id user ms ≡ some m
    → Mem m ms × (m.group_id ≡ id) × (m.user_id ≡ user)
unfolding find_member
find_member-Mem id user [] m e = absurd (ground arith)
find_member-Mem id user (x ∷ xs) m e =
    elim (if_cases (str_eq x.group_id id && str_eq x.user_id user) _ _ _ e) [
      | inl (here, same) ↦
          let both = both_true (str_eq x.group_id id) (str_eq x.user_id user) here in
          subst (λ y. Mem y (x ∷ xs) × (y.group_id ≡ id) × (y.user_id ≡ user)) (some_inj.0 same)
            (mem-cons_self, (eq_iff _ _).0 both.0, (eq_iff _ _).0 both.1)
      | inr (there, rest) ↦
          let (found, group, person) = find_member-Mem id user xs m rest in
          (mem-cons_of_mem x found, group, person)
    ]

is_manager-Manages :
    (id user : String) (ms : List GroupMember)
    → is_manager (find_member id user ms) ≡ true
    → Manages id user ms
is_manager-Manages id user ms manager = elim (Option-cases (find_member id user ms)) [
  | inl nobody ↦ absurd (ground arith)
  | inr (m, found) ↦
      let (row, group, person) = find_member-Mem id user ms m found in
      (m, row, group, person, managed_by m (ap is_manager (sym found) ∙ manager))
]

-- What was checked holds, or nothing was done.
checked_cases :
    {S A B : Type 0} (r : Result A) (f : A → StoreAction S B) (s : S)
    → ((checked r f s).1 ≡ s) ⊎ ((a : A) × (r ≡ ok a))
checked_cases (ok a) f s = inr (a, refl)
checked_cases (err e) f s = inl refl

assert_owner_or_admin-Manages :
    (id user : String) (s : Store) (g : Group)
    → assert_owner_or_admin id user s ≡ ok g
    → (find_by_id id s.groups ≡ some g) × Manages id user s.members
unfolding assert_owner_or_admin
assert_owner_or_admin-Manages id user s g e = go (find_by_id id s.groups) refl e
  where
    go :
        (found : Option Group)
        → find_by_id id s.groups ≡ found
        → elim found as (λ _. Result Group) [
          | none ↦ err (not_found id)
          | some x ↦
              if is_manager (find_member id user s.members)
              then ok x
              else err (Error.forbidden "Only group owner or admin can perform this action")
        ]
          ≡ ok g
        → (find_by_id id s.groups ≡ some g) × Manages id user s.members
    go none at bad = absurd (ground arith)
    go (some x) at run = elim (if_cases (is_manager (find_member id user s.members)) _ _ _ run) [
      | inl (manager, same) ↦ (
        at ∙ ap (λ r. elim r as (λ _. Option Group) [ ok y ↦ some y | err z ↦ none ]) same,
        is_manager-Manages id user s.members manager,
      )
      | inr (stranger, bad) ↦ absurd (ground arith)
    ]

-- A change of a group, its rights and its invite code, and its deletion: whoever asks, the store stays
-- as it was unless the group exists, is not deleted, and the user is its owner or an admin of it.
pub change_authorised :
    (c : Change) (id user : String) (s : Store)
    → (change c id user s ≡ s)
      ⊎ ((g : Group) × (find_by_id id s.groups ≡ some g) × Manages id user s.members)
unfolding change
change_authorised c id user s = go c
  where
    allowed :
        {B : Type 0} (f : Group → StoreAction Store B)
        → ((checked (assert_owner_or_admin id user s) f s).1 ≡ s)
          ⊎ ((g : Group) × (find_by_id id s.groups ≡ some g) × Manages id user s.members)
    allowed f = elim (checked_cases (assert_owner_or_admin id user s) f s) [
      | inl same ↦ inl same
      | inr (g, fine) ↦
          let (live, manages) = assert_owner_or_admin-Manages id user s g fine in
          inr (g, live, manages)
    ]

    go :
        (d : Change)
        → (change d id user s ≡ s)
          ⊎ ((g : Group) × (find_by_id id s.groups ≡ some g) × Manages id user s.members)
    go (Change.update dto) = allowed _
    go (Change.delete t) = allowed _
    go (Change.new_invite_code x) = allowed _
    go (Change.set_gate token least) = allowed _
    go Change.remove_gate = allowed _
