-- ===== src/Groups/Tests.antt =====
-- Runs of the groups' service, and its theorems at concrete inputs.
use dabdub.Prelude.{◌≡◌, ◌⊎◌, refl, none, some, List, [], ◌∷◌}
use dabdub.Platform.Actions.{ok, err, Error}
use dabdub.Groups.Store.{Group, Store, find_by_id, count_members}
use dabdub.Groups.Service.{Outside, CreateGroupDto}
use dabdub.Groups.Joining.{join_by_invite_code}
use dabdub.Groups.Joining.Laws.{Joined, join_by_invite_code-Joined}
use dabdub.Groups.Laws.{Change, change, Manages, change_authorised}
use dabdub.Groups.Memberships.{Grown, GrantedBy, Request, serve, serve-Grown}

abbrev out : Outside
out = record {
  invite_code = "C0DE";
  on_chain = λ u n. ok "tx1";
  balances = λ a. none;
  fresh_id = "g1";
  now = 5;
}

abbrev tea_club : CreateGroupDto
tea_club = record {
  name = "tea";
  description = none;
  avatar_url = none;
  max_members = some 2;
  is_public = none;
}

abbrev empty : Store
empty = record { groups = []; members = [] }

abbrev two : List Request
two =
    Request.open_group out tea_club "ada"
    ∷ Request.join out "C0DE" "bob"
    ∷ Request.join out "C0DE" "bob"
    ∷ []

abbrev founded : Store
unfolding serve
founded = serve (Request.open_group out tea_club "ada" ∷ []) empty

-- The second is let in, who then may not change the group.
second_join_refused : count_members "g1" (serve two empty).members ≡ 2
unfolding serve count_members
second_join_refused = refl

join_by_invite_code-Joined_example :
    let end = join_by_invite_code out "C0DE" "bob" founded in
    ((e : Error) × (end ≡ (err e, founded))) ⊎ Joined out "C0DE" "bob" founded end
join_by_invite_code-Joined_example = join_by_invite_code-Joined out "C0DE" "bob" founded

change_authorised_example :
    (change Change.remove_gate "g1" "bob" founded ≡ founded)
    ⊎ ((g : Group) × (find_by_id "g1" founded.groups ≡ some g) × Manages "g1" "bob" founded.members)
change_authorised_example = change_authorised Change.remove_gate "g1" "bob" founded

serve-Grown_example : Grown (GrantedBy two) empty.members (serve two empty).members
serve-Grown_example = serve-Grown two empty
