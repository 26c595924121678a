-- ===== src/Admin/Keys.antt =====
-- The accounts in the table of merchants, and the writes of backend/src/admin/admin.service.ts that leave them.
use dabdub.Prelude.{
  Bool, true, false, ◌&&◌, some, String, List, [], ◌∷◌, map, if◌then◌else◌, str_eq, eq_iff, ◌≡◌,
  ◌≢◌, refl, sym, ap, ◌∙◌, subst, inl, inr, All, if_cases, arith,
}
use mathlib.Core.Option.{some_inj}
use dabdub.Admin.Store.{Merchant, MerchantRole, find_merchant, is_null, replaced}

-- Who someone is, apart from what the controller may change.
pub record Account : Type 0 where
  pub id : String
  pub email : String
  pub password_hash : String
  pub role : MerchantRole

abbrev pub account : Merchant → Account
account m = record { id = m.id; email = m.email; password_hash = m.password_hash; role = m.role }

-- The primary key: no two rows have one id.
abbrev pub HasKeys : List Account → Type 0
HasKeys [] = Unit
HasKeys (a ∷ xs) = All (λ b. b.id ≢ a.id) xs × HasKeys xs

-- Of two rows with one id, both are the same account.
abbrev pub SameAs : Merchant → List Merchant → Type 0
SameAs m ms = All (λ x. x.id ≡ m.id → account x ≡ account m) ms

found_other :
    (id other : String) (ms : List Merchant) (m : Merchant)
    → find_merchant id ms ≡ some m
    → All (λ b. b.id ≢ other) (map account ms)
    → m.id ≢ other
unfolding find_merchant
found_other id other [] m e others = absurd (ground arith)
found_other id other (x ∷ ms) m e others =
    elim (if_cases (str_eq x.id id && is_null x.deleted_at) (some x) (find_merchant id ms) (some m)
      e) [
        | inl here ↦ λ same. others.0 (ap (λ (y : Merchant). y.id) (some_inj.0 here.1) ∙ same)
        | inr later ↦ found_other id other ms m later.1 others.1
      ]

none_same :
    (m : Merchant) (ms : List Merchant) → All (λ b. b.id ≢ m.id) (map account ms) → SameAs m ms
none_same m [] others = tt
none_same m (x ∷ ms) others = (λ same. absurd (others.0 same), none_same m ms others.1)

pub found-SameAs :
    (id : String) (ms : List Merchant) (m : Merchant)
    → HasKeys (map account ms)
    → find_merchant id ms ≡ some m
    → SameAs m ms
unfolding find_merchant
found-SameAs id [] m keys e = tt
found-SameAs id (x ∷ ms) m keys e =
    elim (if_cases (str_eq x.id id && is_null x.deleted_at) (some x) (find_merchant id ms) (some m)
      e) [
        | inl here ↦
            subst (λ y. SameAs y (x ∷ ms)) (some_inj.0 here.1) (λ _. refl, none_same x ms keys.0)
        | inr later ↦ (
          λ same. absurd (found_other id x.id ms m later.1 keys.0 (sym same)),
          found-SameAs id ms m keys.1 later.1,
        )
      ]

pub accounts_saved :
    (row m : Merchant) (ms : List Merchant)
    → account row ≡ account m
    → SameAs m ms
    → map account (map (replaced row) ms) ≡ map account ms
accounts_saved row m [] e same = refl
accounts_saved row m (x ∷ ms) e same =
    ap (λ a. a ∷ map account (map (replaced row) ms)) (head (str_eq x.id row.id) refl)
    ∙ ap (λ xs. account x ∷ xs) (accounts_saved row m ms e same.1)
  where
    head : (c : Bool) → str_eq x.id row.id ≡ c → account (if c then row else x) ≡ account x
    head true c = e ∙ sym (same.0 ((eq_iff x.id row.id).0 c ∙ ap (λ (a : Account). a.id) e))
    head false c = refl

-- A change that no account shows.
pub accounts_mapped :
    (f : Merchant → Merchant)
    → ((m : Merchant) → account (f m) ≡ account m)
    → (ms : List Merchant) → map account (map f ms) ≡ map account ms
accounts_mapped f same [] = refl
accounts_mapped f same (m ∷ ms) =
    ap (λ a. a ∷ map account (map f ms)) (same m)
    ∙ ap (λ xs. account m ∷ xs) (accounts_mapped f same ms)

pub account-if :
    (c : Bool) (row m : Merchant)
    → account row ≡ account m
    → account (if c then row else m) ≡ account m
account-if true row m e = e
account-if false row m e = refl
