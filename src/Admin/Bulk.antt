-- ===== src/Admin/Bulk.antt =====
-- What the bulk change of status does, id by id: `bulkUpdateMerchantStatus` of backend/src/admin/admin.service.ts.
use mathlib.Core.Option.{some_inj}
use mathlib.Core.Option as Option
use dabdub.Prelude.{
  Bool, true, false, ◌&&◌, ◌||◌, Option, none, some, String, List, [], ◌∷◌, map, if◌then◌else◌,
  str_eq, eq_iff, eq_refl, ◌≡◌, refl, sym, ap, ◌∙◌, subst, inl, inr, Bool-cases, if_cases,
  both_true, arith,
}
use dabdub.Platform.Actions.{ok}
use dabdub.Platform.Stores.{checked}
use dabdub.Admin.Store.{
  Merchant, MerchantStatus, Store, find_merchant, save_merchant, replaced, is_null, or_not_found,
}
use dabdub.Admin.Service.{
  BulkResults, add_result, with_status, update_merchant_status, bulk_update_merchant_status,
  sanitize,
}

found_row :
    (id : String) (ms : List Merchant) (m : Merchant)
    → find_merchant id ms ≡ some m
    → (m.id ≡ id) × (is_null m.deleted_at ≡ true)
unfolding find_merchant
found_row id [] m e = absurd (ground arith)
found_row id (x ∷ ms) m e =
    elim (if_cases (str_eq x.id id && is_null x.deleted_at) (some x) (find_merchant id ms) (some m)
      e) [
        | inl here ↦
            let both = both_true (str_eq x.id id) (is_null x.deleted_at) here.0 in
            subst (λ (y : Merchant). (y.id ≡ id) × (is_null y.deleted_at ≡ true))
              (some_inj.0 here.1) ((eq_iff x.id id).0 both.0, both.1)
        | inr later ↦ found_row id ms m later.1
      ]

-- A row that was saved is found as it was saved.
find_same :
    (row m : Merchant) (ms : List Merchant)
    → is_null row.deleted_at ≡ true
    → find_merchant row.id ms ≡ some m
    → find_merchant row.id (map (replaced row) ms) ≡ some row
unfolding find_merchant
find_same row m [] live e = absurd (ground arith)
find_same row m (x ∷ ms) live e = elim (Bool-cases (str_eq x.id row.id)) [
  | inl here ↦ ground (arith, here, live, eq_refl row.id)
  | inr other ↦
      let later : find_merchant row.id ms ≡ some m = ground (arith, other, e) in
      ground (arith, other, find_same row m ms live later)
]

-- The others are found as before.
find_other :
    (row : Merchant) (id : String) (ms : List Merchant)
    → str_eq row.id id ≡ false
    → find_merchant id (map (replaced row) ms) ≡ find_merchant id ms
unfolding find_merchant
find_other row id [] other = refl
find_other row id (x ∷ ms) other = elim (Bool-cases (str_eq x.id row.id)) [
  | inl here ↦
      let away : str_eq x.id id ≡ false =
        ap (λ y. str_eq y id) ((eq_iff x.id row.id).0 here) ∙ other in
      ground (arith, here, away, other, find_other row id ms other)
  | inr there ↦ ground (arith, there, find_other row id ms other)
]

-- Whether an id is in a list of them.
unfoldable pub has_id : (id : String) → List String → Bool
has_id id [] = false
has_id id (x ∷ xs) = str_eq x id || has_id id xs

abbrev pub given_status : Bool → MerchantStatus → Option Merchant → Option Merchant
given_status c status row = if c then Option.map (with_status status) row else row

update-find :
    (id : String) (status : MerchantStatus) (s : Store) (other : String)
    → find_merchant other (update_merchant_status id status s).1.merchants
      ≡ given_status (str_eq id other) status (find_merchant other s.merchants)
unfolding update_merchant_status save_merchant
update-find id status s other = go (find_merchant id s.merchants) refl (str_eq id other) refl
  where
    go :
        (o : Option Merchant)
        → find_merchant id s.merchants ≡ o
        → (c : Bool) → str_eq id other ≡ c
        → find_merchant other
            (checked
              (or_not_found "Merchant not found" o)
              (λ m s. (
                ok (sanitize (with_status status m)),
                record s { merchants = map (replaced (with_status status m)) s.merchants },
              ))
              s).1.merchants
          ≡ given_status c status (find_merchant other s.merchants)
    go none e true same =
        let away = ap (λ y. find_merchant y s.merchants) (sym ((eq_iff id other).0 same)) ∙ e in
        away ∙ sym (ap (Option.map (with_status status)) away)
    go none e false same = refl
    go (some m) e true same =
        let row = with_status status m in
        let (named, live) = found_row id s.merchants m e in
        let is_other : m.id ≡ other = named ∙ (eq_iff id other).0 same in
        let found = ap (λ y. find_merchant y s.merchants) named ∙ e in
        ap (λ y. find_merchant y (map (replaced row) s.merchants)) (sym is_other)
        ∙ find_same row m s.merchants live found
        ∙ ap (Option.map (with_status status))
            (sym found ∙ ap (λ y. find_merchant y s.merchants) is_other)
    go (some m) e false same =
        find_other (with_status status m) other s.merchants
          (ap (λ y. str_eq y other) (found_row id s.merchants m e).0 ∙ same)

twice :
    (a b : Bool) (status : MerchantStatus) (o : Option Merchant)
    → given_status b status (given_status a status o) ≡ given_status (a || b) status o
twice true true status none = refl
twice true true status (some m) = refl
twice true false status o = refl
twice false b status o = refl

abbrev pub is_found : Option Merchant → Bool
is_found none = false
is_found (some m) = true

-- The ids split by whether they are in the table, each part in its order.
unfoldable pub reported : List Merchant → List String → BulkResults
unfolding find_merchant
reported ms [] = ([], [])
reported ms (id ∷ ids) =
    let (success, failed) = reported ms ids in
    if is_found (find_merchant id ms)
    then (id ∷ success, failed)
    else (success, (id, "Merchant not found") ∷ failed)

bulk-find :
    (ids : List String) (status : MerchantStatus) (s : Store) (other : String)
    → find_merchant other (bulk_update_merchant_status ids status s).1.merchants
      ≡ given_status (has_id other ids) status (find_merchant other s.merchants)
unfolding bulk_update_merchant_status has_id
bulk-find [] status s other = refl
bulk-find (id ∷ ids) status s other =
    bulk-find ids status (update_merchant_status id status s).1 other
    ∙ ap (given_status (has_id other ids) status) (update-find id status s other)
    ∙ twice (str_eq id other) (has_id other ids) status (find_merchant other s.merchants)

reported_same :
    (xs ys : List Merchant) (ids : List String)
    → ((id : String) → is_found (find_merchant id xs) ≡ is_found (find_merchant id ys))
    → reported xs ids ≡ reported ys ids
unfolding reported
reported_same xs ys [] same = refl
reported_same xs ys (id ∷ ids) same = rw (same id) (rw (reported_same xs ys ids same) refl)

still_found :
    (c : Bool) (status : MerchantStatus) (o : Option Merchant)
    → is_found (given_status c status o) ≡ is_found o
still_found true status none = refl
still_found true status (some m) = refl
still_found false status o = refl

-- One id's result, by whether it is found.
add_result_lem :
    (id : String) (status : MerchantStatus) (s : Store) (results : BulkResults)
    → add_result id (update_merchant_status id status s).0 results ≡ (
        if is_found (find_merchant id s.merchants)
        then (id ∷ results.0, results.1)
        else (results.0, (id, "Merchant not found") ∷ results.1))
unfolding update_merchant_status save_merchant
add_result_lem id status s (success, failed) = go (find_merchant id s.merchants)
  where
    go :
        (o : Option Merchant)
        → add_result id
            (checked
              (or_not_found "Merchant not found" o)
              (λ m s. (
                ok (sanitize (with_status status m)),
                record s { merchants = map (replaced (with_status status m)) s.merchants },
              ))
              s).0
            (success, failed)
          ≡ (if is_found o
              then (id ∷ success, failed)
              else (success, (id, "Merchant not found") ∷ failed))
    go none = refl
    go (some m) = refl

bulk-reported :
    (ids : List String) (status : MerchantStatus) (s : Store)
    → (bulk_update_merchant_status ids status s).0 ≡ reported s.merchants ids
unfolding bulk_update_merchant_status reported
bulk-reported [] status s = refl
bulk-reported (id ∷ ids) status s =
    let s' = (update_merchant_status id status s).1 in
    let rest =
      bulk-reported ids status s'
      ∙ reported_same s'.merchants s.merchants ids (λ other.
        ap is_found (update-find id status s other)
        ∙ still_found (str_eq id other) status (find_merchant other s.merchants)) in
    add_result_lem id status s (bulk_update_merchant_status ids status s').0
    ∙ ap
        (λ (r : BulkResults).
          if is_found (find_merchant id s.merchants)
          then (id ∷ r.0, r.1)
          else (r.0, (id, "Merchant not found") ∷ r.1))
        rest

-- The bulk change, whatever the ids, missing and repeated ones among them: its results are the ids
-- that were in the table before and those that were not, each in the order asked for; afterwards a
-- look-up finds what it found before, with the new status if the id was asked for.
bulk_update_merchant_status_lem :
    (ids : List String) (status : MerchantStatus) (s : Store)
    → ((bulk_update_merchant_status ids status s).0 ≡ reported s.merchants ids)
      × ((other : String)
          → find_merchant other (bulk_update_merchant_status ids status s).1.merchants
            ≡ given_status (has_id other ids) status (find_merchant other s.merchants))
bulk_update_merchant_status_lem ids status s = (bulk-reported ids status s, bulk-find ids status s)
