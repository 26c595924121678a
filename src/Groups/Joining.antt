-- ===== src/Groups/Joining.antt =====
-- `joinByInviteCode` of backend/src/groups/groups.service.ts, with the checks of capacity and of the
-- token that a group may ask for.
pub mod Laws
use Prim.Native.Char.{code}
use Prim.Native.String
use dabdub.Prelude.{
  ℕ, Bool, true, false, not, ◌&&◌, ◌||◌, Option, none, some, String, List, [], ◌∷◌, if◌then◌else◌,
  str_eq, ltb, leb, ◌==◌, truthy, is_text,
}
use dabdub.Platform.Actions.{Result, ok, err, Error}
use dabdub.Platform.Stores.{StoreAction, checked, after_write}
use dabdub.Groups.Store.{
  GroupMemberRole, Group, Store, GroupResponse, find_by_invite_code, count_members, is_member,
  add_member, respond,
}
use dabdub.Groups.Service.{Balance, Outside}

-- The parts of `s.split(':')`: up to the first colon, and from it to the second.
abbrev pub before_colon : String → String
before_colon String.[] = ""
before_colon (String.◌∷◌ c s) = if code c == 58 then "" else String.◌∷◌ c (before_colon s)

abbrev pub after_colon : String → Option String
after_colon String.[] = none
after_colon (String.◌∷◌ c s) = if code c == 58 then some (before_colon s) else after_colon s

-- The balance is in the asset that the gate names; an issuer that is not given fits any.
abbrev pub is_gate_balance : (asset_code : String) → (issuer : Option String) → Balance → Bool
is_gate_balance asset issuer b =
    if str_eq asset "XLM"
    then str_eq b.asset_type "native"
    else is_text b.asset_code asset
      && elim (truthy issuer) [ none ↦ true | some i ↦ is_text b.asset_issuer i ]

unfoldable pub find_balance :
    (asset_code : String) → (issuer : Option String) → List Balance → Option Balance
find_balance asset issuer [] = none
find_balance asset issuer (b ∷ bs) =
    if is_gate_balance asset issuer b then some b else find_balance asset issuer bs

abbrev pub insufficient : Error
insufficient = Error.forbidden "Insufficient token balance."

-- The balance found is there and is enough.
abbrev pub check_gate_balance : (min_balance : ℕ) → Option Balance → Result (Unit {0})
check_gate_balance least none = err insufficient
check_gate_balance least (some b) = if ltb b.balance least then err insufficient else ok tt

unfoldable pub verify_token_gate :
    Outside → (account_id token_address : String) → (min_balance : ℕ) → Result (Unit {0})
unfolding find_balance
verify_token_gate out account token least = elim (out.balances account) [
  | none ↦ err (Error.forbidden "Could not verify token balance on Stellar Horizon")
  | some bs ↦ check_gate_balance least (find_balance (before_colon token) (after_colon token) bs)
]

-- The address and the amount of a gate that is on: both are there, and the address is not empty.
abbrev pub gate : Group → Option (String × ℕ)
gate g =
    if g.is_token_gated
    then elim (truthy g.gate_token_address) [
      | none ↦ none
      | some token ↦ elim g.gate_min_balance [ none ↦ none | some least ↦ some (token, least) ]
    ]
    else none

unfoldable pub check_gate : Outside → (user_id : String) → Option (String × ℕ) → Result (Unit {0})
unfolding verify_token_gate
check_gate out user none = ok tt
check_gate out user (some (token, least)) = verify_token_gate out user token least

unfoldable pub assert_can_join : Outside → Group → (user_id : String) → Store → Result (Unit {0})
unfolding is_member count_members check_gate
assert_can_join out g user s =
    if is_member g.id user s.members
    then err (Error.bad_request "Already a member of this group")
    else if leb g.max_members (count_members g.id s.members)
    then err (Error.bad_request "Group is full")
    else check_gate out user (gate g)

unfoldable pub join_group : Outside → Group → (user_id : String) → StoreAction Store GroupResponse
unfolding assert_can_join add_member respond
join_group out g user s =
    checked (assert_can_join out g user s)
      (λ _. after_write (add_member g.id user GroupMemberRole.member) (λ _. respond g.id)) s

unfoldable pub join_by_invite_code :
    Outside → (invite_code user_id : String) → StoreAction Store GroupResponse
unfolding find_by_invite_code join_group
join_by_invite_code out invite user s = elim (find_by_invite_code invite s.groups) [
  | none ↦ (err (Error.not_found "Invalid invite code"), s)
  | some g ↦ join_group out g user s
]
