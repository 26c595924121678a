-- ===== src/Groups/Memberships.antt =====
-- Who becomes a member of a group, and as what, through any sequence of requests.
use dabdub.Prelude.{
  ◌≡◌, ◌⊎◌, inl, inr, refl, ap, sym, ◌∙◌, ℕ, Option, none, some, String, List, [], ◌∷◌, ◌++◌, All,
  All-append,
}
use mathlib.Core.List.{append_assoc, append-nil}
use dabdub.Platform.Actions.{Result, ok, err, Error}
use dabdub.Platform.Stores.{
  StoreAction, checked, StoreKeeps, if-store, checked-StoreKeeps, after_write-StoreKeeps,
}
use dabdub.Groups.Store.{
  GroupMemberRole, GroupMember, Group, Store, GroupResponse, count_members, find_by_id,
  find_by_invite_code, is_member, add_member, save_group, soft_delete_group, respond,
}
use dabdub.Groups.Service.{
  Outside, CreateGroupDto, on_chain_error, new_group, create_group, assert_owner_or_admin,
  save_and_respond,
}
use dabdub.Groups.Joining.{assert_can_join, join_group, join_by_invite_code}
use dabdub.Groups.Laws.{Change, change}

-- The first rows are still there, unchanged and in their order, and all later ones are allowed.
abbrev pub Grown : (allowed : GroupMember → Type 0) → (before after : List GroupMember) → Type 0
Grown allowed before after =
    (added : List GroupMember) × (after ≡ before ++ added) × All allowed added

module _ (allowed : GroupMember → Type 0) (before : List GroupMember) where
  abbrev Grows : Store → Type 0
  Grows s = Grown allowed before s.members

  add_member-Grows :
      (g u : String) (role : GroupMemberRole)
      → allowed (record { group_id = g; user_id = u; role = role })
      → StoreKeeps Grows (add_member g u role)
  unfolding add_member
  add_member-Grows g u role fine s grown =
      if-store Grows (is_member g u s.members) _ _ (λ _. grown) (λ _. one_more grown)
    where
      one_more :
          Grows s
          → Grows (record s {
            members = s.members ++ record { group_id = g; user_id = u; role = role } ∷ [];
          })
      one_more (added, same, all) = (
        added ++ record { group_id = g; user_id = u; role = role } ∷ [],
        ap (λ ms. ms ++ record { group_id = g; user_id = u; role = role } ∷ []) same
            ∙ append_assoc before added _,
        All-append allowed added _ all (fine, tt),
      )

  save_group-Grows : (g : Group) → StoreKeeps Grows (save_group g)
  unfolding save_group
  save_group-Grows g s each = if-store Grows _ _ _ (λ _. each) (λ _. each)

  respond-Grows : (id : String) → StoreKeeps Grows (respond id)
  unfolding respond
  respond-Grows id s each = go (find_by_id id s.groups)
    where
      go :
          (x : Option Group)
          → Grows
              (elim x as (λ _. Result GroupResponse × Store) [
                | none ↦ (err (Error.failure "Cannot read properties of null"), s)
                | some g ↦ (ok (record { group = g; member_count = count_members id s.members }), s)
              ]).1
      go none = each
      go (some g) = each

  soft_delete_group-Grows : (id : String) (t : ℕ) → StoreKeeps Grows (soft_delete_group id t)
  unfolding soft_delete_group
  soft_delete_group-Grows id t s each = each

  save_and_respond-Grows : (id : String) (g : Group) → StoreKeeps Grows (save_and_respond id g)
  unfolding save_and_respond
  save_and_respond-Grows id g =
      after_write-StoreKeeps Grows (save_group g) _ (save_group-Grows g) (λ _. respond-Grows id)

  create_group-Grows :
      (out : Outside) (dto : CreateGroupDto) (user : String)
      → allowed (record { group_id = out.fresh_id; user_id = user; role = GroupMemberRole.owner })
      → StoreKeeps Grows (create_group out dto user)
  unfolding create_group
  create_group-Grows out dto user fine =
      checked-StoreKeeps Grows (on_chain_error (out.on_chain user dto.name)) _ (λ chain_id.
        after_write-StoreKeeps Grows (save_group (new_group out dto user chain_id)) _
          (save_group-Grows (new_group out dto user chain_id))
          (λ _.
            after_write-StoreKeeps Grows (add_member out.fresh_id user GroupMemberRole.owner) _
              (add_member-Grows out.fresh_id user GroupMemberRole.owner fine)
              (λ _. respond-Grows out.fresh_id)))

  join_group-Grows :
      (out : Outside) (g : Group) (user : String)
      → allowed (record { group_id = g.id; user_id = user; role = GroupMemberRole.member })
      → StoreKeeps Grows (join_group out g user)
  unfolding join_group
  join_group-Grows out g user fine s =
      checked-StoreKeeps Grows (assert_can_join out g user s) _
        (λ _.
          after_write-StoreKeeps Grows (add_member g.id user GroupMemberRole.member) _
            (add_member-Grows g.id user GroupMemberRole.member fine) (λ _. respond-Grows g.id))
        s

  join_by_invite_code-Grows :
      (out : Outside) (invite user : String)
      → ((g : Group)
          → allowed (record { group_id = g.id; user_id = user; role = GroupMemberRole.member }))
      → StoreKeeps Grows (join_by_invite_code out invite user)
  unfolding join_by_invite_code
  join_by_invite_code-Grows out invite user fine s each = go (find_by_invite_code invite s.groups)
    where
      go :
          (x : Option Group)
          → Grows
              (elim x as (λ _. Result GroupResponse × Store) [
                | none ↦ (err (Error.not_found "Invalid invite code"), s)
                | some g ↦ join_group out g user s
              ]).1
      go none = each
      go (some g) = join_group-Grows out g user (fine g) s each

  change-Grows : (c : Change) (id user : String) (s : Store) → Grows s → Grows (change c id user s)
  unfolding change
  change-Grows c id user s each = go c
    where
      managed :
          {B : Type 0} (f : Group → StoreAction Store B)
          → ((g : Group) → StoreKeeps Grows (f g))
          → Grows (checked (assert_owner_or_admin id user s) f s).1
      managed f keeps = checked-StoreKeeps Grows (assert_owner_or_admin id user s) f keeps s each

      go : (d : Change) → Grows (change d id user s)
      go (Change.update dto) = managed _ (λ g. save_and_respond-Grows id _)
      go (Change.delete t) = managed _ (λ g. soft_delete_group-Grows id t)
      go (Change.new_invite_code x) = managed _ (λ g.
          after_write-StoreKeeps Grows (save_group (record g { invite_code = some x })) _
            (save_group-Grows (record g { invite_code = some x })) (λ _ s' p. p))
      go (Change.set_gate token least) = managed _ (λ g. save_and_respond-Grows id _)
      go Change.remove_gate = managed _ (λ g. save_and_respond-Grows id _)

-- A request, with what the surroundings answer to it.
pub data Request : Type 0 where
  open_group : Outside → CreateGroupDto → (user_id : String) → Request
  join : Outside → (invite user_id : String) → Request
  manage : Change → (group_id user_id : String) → Request

-- The store after requests that come one after the other, those that throw among them.
unfoldable pub serve : List Request → Store → Store
unfolding create_group join_by_invite_code change
serve [] s = s
serve (Request.open_group out dto user ∷ rs) s = serve rs (create_group out dto user s).1
serve (Request.join out invite user ∷ rs) s = serve rs (join_by_invite_code out invite user s).1
serve (Request.manage c id user ∷ rs) s = serve rs (change c id user s)

-- The row that a request may add: the founder's as owner of the new group, or a plain member's for the
-- user who joins.
abbrev pub Grants : Request → GroupMember → Type 0
Grants (Request.open_group out dto user) m =
    (m.group_id ≡ out.fresh_id) × (m.user_id ≡ user) × (m.role ≡ GroupMemberRole.owner)
Grants (Request.join out invite user) m = (m.user_id ≡ user) × (m.role ≡ GroupMemberRole.member)
Grants (Request.manage c id user) m = ⊥

-- One of the requests may add the row.
abbrev pub GrantedBy : List Request → GroupMember → Type 0
GrantedBy [] m = ⊥
GrantedBy (q ∷ qs) m = Grants q m ⊎ GrantedBy qs m

unchanged : (q : Request) (s : Store) → Grown (Grants q) s.members s.members
unchanged q s = ([], sym (append-nil s.members), tt)

Grown-trans :
    (P Q : GroupMember → Type 0) (xs ys zs : List GroupMember)
    → Grown P xs ys
    → Grown Q ys zs
    → Grown (λ m. P m ⊎ Q m) xs zs
Grown-trans P Q xs ys zs (first, same, all) (later, same', all') = (
  first ++ later,
  same' ∙ ap (λ ms. ms ++ later) same ∙ append_assoc xs first later,
  All-append (λ m. P m ⊎ Q m) first later (imply (λ m q. inl q) first all)
      (imply (λ m q. inr q) later all'),
)
  where
    imply :
        {R : GroupMember → Type 0}
        → ((m : GroupMember) → R m → P m ⊎ Q m)
        → (ms : List GroupMember) → All R ms
        → All (λ m. P m ⊎ Q m) ms
    imply f [] held = tt
    imply f (m ∷ ms) held = (f m held.0, imply f ms held.1)

-- Through any requests, one after the other and whether they return or throw, every row in the table of
-- members stays, with the role it has, and each row that is added is that of a user who asked: as owner
-- of the group that the user opened, or as a plain member by joining. So nobody becomes the owner or an
-- admin of a group but by founding it.
pub serve-Grown :
    (rs : List Request) (s : Store) → Grown (GrantedBy rs) s.members (serve rs s).members
unfolding serve
serve-Grown [] s = ([], sym (append-nil s.members), tt)
serve-Grown (Request.open_group out dto user ∷ rs) s =
    let q = Request.open_group out dto user in
    let t = (create_group out dto user s).1 in
    Grown-trans (Grants q) (GrantedBy rs) s.members t.members (serve rs t).members
      (create_group-Grows (Grants q) s.members out dto user (refl, refl, refl) s (unchanged q s))
      (serve-Grown rs t)
serve-Grown (Request.join out invite user ∷ rs) s =
    let q = Request.join out invite user in
    let t = (join_by_invite_code out invite user s).1 in
    Grown-trans (Grants q) (GrantedBy rs) s.members t.members (serve rs t).members
      (join_by_invite_code-Grows (Grants q) s.members out invite user (λ g. (refl, refl)) s
        (unchanged q s))
      (serve-Grown rs t)
serve-Grown (Request.manage c id user ∷ rs) s =
    let q = Request.manage c id user in
    let t = change c id user s in
    Grown-trans (Grants q) (GrantedBy rs) s.members t.members (serve rs t).members
      (change-Grows (Grants q) s.members c id user s (unchanged q s)) (serve-Grown rs t)
