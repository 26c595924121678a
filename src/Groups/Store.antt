-- ===== src/Groups/Store.antt =====
-- The tables of groups and their members (backend/src/groups/entities) with the queries of
-- backend/src/groups/groups.repository.ts, and the response of backend/src/groups/dto/groups.dto.ts.
use dabdub.Prelude.{
  ℕ, ◌+◌, Bool, true, false, not, ◌&&◌, ◌||◌, Option, none, some, String, List, [], ◌∷◌, ◌++◌, map,
  if◌then◌else◌, str_eq, ltb,
}
use dabdub.Platform.Actions.{ok, err, Error}
use dabdub.Platform.Stores.{StoreAction}

pub data GroupMemberRole : Type 0 where
  owner admin member : GroupMemberRole

pub record GroupMember : Type 0 where
  pub group_id : String
  pub user_id : String
  pub role : GroupMemberRole

pub record Group : Type 0 where
  pub id : String
  pub name : String
  pub description : Option String
  pub avatar_url : Option String
  pub created_by : String
  pub max_members : ℕ
  pub is_public : Bool
  pub invite_code : Option String
  pub is_token_gated : Bool
  pub gate_token_address : Option String
  pub gate_min_balance : Option ℕ  -- ten-millionths
  pub on_chain_id : Option String
  pub created_at : ℕ
  pub deleted_at : Option ℕ

pub record Store : Type 0 where
  pub groups : List Group
  pub members : List GroupMember

abbrev pub is_live : Group → Bool
is_live g = elim g.deleted_at [ none ↦ true | some t ↦ false ]

-- `findByIdWithMembers`; the members are looked up where they are used.
unfoldable pub find_by_id : (id : String) → List Group → Option Group
find_by_id id [] = none
find_by_id id (g ∷ gs) = if str_eq g.id id && is_live g then some g else find_by_id id gs

abbrev pub has_code : (code : String) → Group → Bool
has_code code g = elim g.invite_code [ none ↦ false | some c ↦ str_eq c code ]

unfoldable pub find_by_invite_code : (code : String) → List Group → Option Group
find_by_invite_code code [] = none
find_by_invite_code code (g ∷ gs) =
    if has_code code g && is_live g then some g else find_by_invite_code code gs

-- `members.find((m) => m.userId === userId)` among the members of a group.
unfoldable pub find_member : (group_id user_id : String) → List GroupMember → Option GroupMember
find_member g u [] = none
find_member g u (m ∷ ms) =
    if str_eq m.group_id g && str_eq m.user_id u then some m else find_member g u ms

unfoldable pub count_members : (group_id : String) → List GroupMember → ℕ
count_members g [] = 0
count_members g (m ∷ ms) =
    if str_eq m.group_id g then count_members g ms + 1 else count_members g ms

-- The rows with this group and user, `count({ where: { groupId, userId } })`.
unfoldable pub memberships : (group_id user_id : String) → List GroupMember → ℕ
memberships g u [] = 0
memberships g u (m ∷ ms) =
    if str_eq m.group_id g && str_eq m.user_id u then memberships g u ms + 1 else memberships g u ms

unfoldable pub is_member : (group_id user_id : String) → List GroupMember → Bool
unfolding memberships
is_member g u ms = ltb 0 (memberships g u ms)

-- `addMember`. The index over group and user is unique, so a second row is refused.
unfoldable pub add_member :
    (group_id user_id : String) → GroupMemberRole → StoreAction Store (Unit {0})
unfolding is_member
add_member g u role s =
    if is_member g u s.members then (err (Error.failure "IDX_GROUP_MEMBER_UNIQUE"), s) else (
      ok tt,
      record s { members = s.members ++ record { group_id = g; user_id = u; role = role } ∷ [] },
    )

-- Another group has the invite code.
abbrev pub code_taken : Group → List Group → Bool
code_taken g [] = false
code_taken g (o ∷ os) =
    (not (str_eq o.id g.id) && elim g.invite_code [ none ↦ false | some c ↦ has_code c o ])
    || code_taken g os

abbrev pub put_group : Group → List Group → List Group
put_group g [] = g ∷ []
put_group g (o ∷ os) = if str_eq o.id g.id then g ∷ os else o ∷ put_group g os

-- `save`: the row with the id is replaced, or a row added. The index over the codes is unique.
unfoldable pub save_group : Group → StoreAction Store (Unit {0})
save_group g s =
    if code_taken g s.groups
    then (err (Error.failure "IDX_GROUP_INVITE_CODE"), s)
    else (ok tt, record s { groups = put_group g s.groups })

abbrev delete_row : (id : String) → (now : ℕ) → Group → Group
delete_row id t g = if str_eq g.id id then record g { deleted_at = some t } else g

-- `softDeleteGroup`
unfoldable pub soft_delete_group : (id : String) → (now : ℕ) → StoreAction Store (Unit {0})
soft_delete_group id t s = (ok tt, record s { groups = map (delete_row id t) s.groups })

-- `GroupResponseDto`: the columns of the row but `deletedAt`, and how many members there are.
pub record GroupResponse : Type 0 where
  pub group : Group
  pub member_count : ℕ

-- `GroupResponseDto.from(await this.repo.findByIdWithMembers(id) as Group)`, where nothing found
-- is read as a group.
unfoldable pub respond : (id : String) → StoreAction Store GroupResponse
unfolding find_by_id count_members
respond id s = elim (find_by_id id s.groups) [
  | none ↦ (err (Error.failure "Cannot read properties of null"), s)
  | some g ↦ (ok (record { group = g; member_count = count_members id s.members }), s)
]
