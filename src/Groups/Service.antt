-- ===== src/Groups/Service.antt =====
-- backend/src/groups/groups.service.ts. The transaction that records a new group on Stellar, the random
-- invite code and the balances of an account are answers of the surroundings.
use Prim.Native.String
use dabdub.Prelude.{ℕ, Bool, true, false, Option, none, some, String, List, if◌then◌else◌}
use dabdub.Platform.Actions.{Result, ok, err, Error, message}
use dabdub.Platform.Stores.{StoreAction, checked, after_write}
use dabdub.Groups.Store.{
  GroupMemberRole, GroupMember, Group, Store, GroupResponse, find_by_id, find_member, count_members,
  add_member, save_group, soft_delete_group, respond,
}

-- A balance of an account on Stellar.
pub record Balance : Type 0 where
  pub asset_type : String
  pub asset_code : Option String
  pub asset_issuer : Option String
  pub balance : ℕ  -- ten-millionths

-- What the surroundings answer to one call of the service.
pub record Outside : Type 0 where
  pub invite_code : String
  pub on_chain : (creator_id group_name : String) → Result String
  pub balances : (account_id : String) → Option (List Balance)  -- none: the query throws
  pub fresh_id : String
  pub now : ℕ

pub record CreateGroupDto : Type 0 where
  pub name : String
  pub description : Option String
  pub avatar_url : Option String
  pub max_members : Option ℕ
  pub is_public : Option Bool

pub record UpdateGroupDto : Type 0 where
  pub name : Option String
  pub description : Option String
  pub avatar_url : Option String
  pub max_members : Option ℕ
  pub is_public : Option Bool

-- `x ?? y`
abbrev pub or_else : {A : Type 0} → Option A → A → A
or_else none y = y
or_else (some x) y = x

abbrev pub new_group : Outside → CreateGroupDto → (user_id on_chain_id : String) → Group
new_group out dto user chain_id = record {
  id = out.fresh_id;
  name = dto.name;
  description = dto.description;
  avatar_url = dto.avatar_url;
  created_by = user;
  max_members = or_else dto.max_members 100;
  is_public = or_else dto.is_public true;
  invite_code = some out.invite_code;
  is_token_gated = false;
  gate_token_address = none;
  gate_min_balance = none;
  on_chain_id = some chain_id;
  created_at = out.now;
  deleted_at = none;
}

abbrev pub on_chain_error : Result String → Result String
on_chain_error (ok id) = ok id
on_chain_error (err e) =
    err (Error.bad_request (String.◌++◌ "On-chain group creation failed: " (message e)))

-- The rows of a new group: its own, then the owner's.
unfoldable pub store_group : Group → (user_id : String) → StoreAction Store GroupResponse
unfolding save_group add_member respond
store_group g user =
    after_write (save_group g)
      (λ _. after_write (add_member g.id user GroupMemberRole.owner) (λ _. respond g.id))

unfoldable pub create_group :
    Outside → CreateGroupDto → (user_id : String) → StoreAction Store GroupResponse
unfolding store_group
create_group out dto user =
    checked (on_chain_error (out.on_chain user dto.name))
      (λ chain_id. store_group (new_group out dto user chain_id) user)

abbrev pub not_found : (id : String) → Error
not_found id = Error.not_found (String.◌++◌ "Group " (String.◌++◌ id " not found"))

-- `getGroup`
unfoldable pub get_group : (id : String) → Store → Result GroupResponse
unfolding find_by_id count_members
get_group id s = elim (find_by_id id s.groups) [
  | none ↦ err (not_found id)
  | some g ↦ ok (record { group = g; member_count = count_members id s.members })
]

abbrev pub is_manager : Option GroupMember → Bool
is_manager none = false
is_manager (some m) = elim m.role [
  | GroupMemberRole.owner ↦ true
  | GroupMemberRole.admin ↦ true
  | GroupMemberRole.member ↦ false
]

unfoldable pub assert_owner_or_admin : (group_id user_id : String) → Store → Result Group
unfolding find_by_id find_member
assert_owner_or_admin id user s = elim (find_by_id id s.groups) [
  | none ↦ err (not_found id)
  | some g ↦
      if is_manager (find_member id user s.members)
      then ok g
      else err (Error.forbidden "Only group owner or admin can perform this action")
]

-- `save` and the response.
unfoldable pub save_and_respond : (id : String) → Group → StoreAction Store GroupResponse
unfolding save_group respond
save_and_respond id g = after_write (save_group g) (λ _. respond id)

-- `Object.assign(group, dto)`: what the request leaves out stays.
abbrev pub updated : UpdateGroupDto → Group → Group
updated dto g = record g {
  name = or_else dto.name g.name;
  description = elim dto.description [ none ↦ g.description | some d ↦ some d ];
  avatar_url = elim dto.avatar_url [ none ↦ g.avatar_url | some u ↦ some u ];
  max_members = or_else dto.max_members g.max_members;
  is_public = or_else dto.is_public g.is_public;
}

unfoldable pub update_group :
    (id : String) → UpdateGroupDto → (user_id : String) → StoreAction Store GroupResponse
unfolding assert_owner_or_admin save_and_respond
update_group id dto user s =
    checked (assert_owner_or_admin id user s) (λ g. save_and_respond id (updated dto g)) s

unfoldable pub delete_group :
    (id : String) → (now : ℕ) → (user_id : String) → StoreAction Store (Unit {0})
unfolding assert_owner_or_admin soft_delete_group
delete_group id t user s = checked (assert_owner_or_admin id user s) (λ _. soft_delete_group id t) s

unfoldable pub generate_invite_code :
    (id : String) → (new_code : String) → (user_id : String) → StoreAction Store String
unfolding assert_owner_or_admin save_group
generate_invite_code id new_code user s =
    checked (assert_owner_or_admin id user s)
      (λ g.
        after_write (save_group (record g { invite_code = some new_code }))
          (λ _ s'. (ok new_code, s')))
      s

unfoldable pub set_token_gate :
    (id : String)
    → (token_address : String) → (min_balance : ℕ) → (user_id : String)
    → StoreAction Store GroupResponse
unfolding assert_owner_or_admin save_and_respond
set_token_gate id token least user s =
    checked (assert_owner_or_admin id user s)
      (λ g. save_and_respond id (record g {
        is_token_gated = true;
        gate_token_address = some token;
        gate_min_balance = some least;
      }))
      s

-- The two columns of the gate are set to `undefined`, which `save` passes over: they stay.
unfoldable pub remove_token_gate : (id user_id : String) → StoreAction Store GroupResponse
unfolding assert_owner_or_admin save_and_respond
remove_token_gate id user s =
    checked (assert_owner_or_admin id user s)
      (λ g. save_and_respond id (record g { is_token_gated = false })) s
