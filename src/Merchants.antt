-- ===== src/Merchants.antt =====
-- The bulk change of status in backend/src/merchants/merchants.service.ts, with its audit entries. The save, the
-- deletion of the cached count and the entry can each fail, as `Failing` says, with a message.
use dabdub.Prelude.{
  ℕ, suc, ◌+◌, Option, none, some, String, List, [], ◌∷◌, map, length, ◌≡◌, refl, ap, ◌∙◌, arith,
}
use dabdub.Admin.Store.{Merchant, MerchantStatus, find_merchant, replaced}

-- `merchant_${status}` with the status before and after.
pub record AdminAudit : Type 0 where
  pub admin_id : String
  pub target_id : String
  pub old_status : MerchantStatus
  pub new_status : MerchantStatus

pub record Failing : Type 0 where
  pub save : (id : String) → Option String
  pub cache : (id : String) → Option String
  pub audit : (id : String) → Option String

pub record MerchantStore : Type 0 where
  pub merchants : List Merchant
  pub audit_log : List AdminAudit

-- A result has the message of its error, or none.
pub record BulkActionResult : Type 0 where
  pub id : String
  pub error : Option String

pub record BulkActionResponse : Type 0 where
  pub results : List BulkActionResult
  pub total : ℕ
  pub successful : ℕ
  pub failed : ℕ

abbrev pub saved_row : MerchantStatus → Merchant → MerchantStore → MerchantStore
saved_row status m s = record s {
  merchants = map (replaced (record m { status = status })) s.merchants;
}

abbrev pub audited :
    (admin_id id : String) → MerchantStatus → Merchant → MerchantStore → MerchantStore
audited admin_id id status m s = record s {
  audit_log =
      record { admin_id = admin_id; target_id = id; old_status = m.status; new_status = status }
      ∷ s.audit_log;
}

-- After the save: the cache, then the entry.
abbrev pub after_save :
    Option String
    → Option String
    → (admin_id id : String) → MerchantStatus
    → Merchant
    → MerchantStore
    → Option String × MerchantStore
after_save (some e) audit admin_id id status m s = (some e, s)
after_save none (some e) admin_id id status m s = (some e, s)
after_save none none admin_id id status m s = (none, audited admin_id id status m s)

abbrev pub save_and_audit :
    Failing
    → Option String
    → (admin_id id : String) → MerchantStatus
    → Merchant
    → MerchantStore
    → Option String × MerchantStore
save_and_audit failing (some e) admin_id id status m s = (some e, s)
save_and_audit failing none admin_id id status m s =
    after_save (failing.cache id) (failing.audit id) admin_id id status m (saved_row status m s)

-- The `try` block for one id.
unfoldable pub change_status :
    Failing
    → (admin_id id : String) → MerchantStatus
    → MerchantStore
    → Option String × MerchantStore
unfolding find_merchant
change_status failing admin_id id status s = elim (find_merchant id s.merchants) [
  | none ↦ (some "Merchant not found", s)
  | some m ↦ save_and_audit failing (failing.save id) admin_id id status m s
]

abbrev pub counted :
    (id : String) → Option String → List BulkActionResult × ℕ × ℕ → List BulkActionResult × ℕ × ℕ
counted id none (results, successful, failed) =
    (record { id = id; error = none } ∷ results, suc successful, failed)
counted id (some e) (results, successful, failed) =
    (record { id = id; error = some e } ∷ results, successful, suc failed)

unfoldable pub change_all :
    Failing
    → (admin_id : String) → List String
    → MerchantStatus
    → MerchantStore
    → (List BulkActionResult × ℕ × ℕ) × MerchantStore
unfolding change_status
change_all failing admin_id [] status s = (([], 0, 0), s)
change_all failing admin_id (id ∷ ids) status s =
    let (error, s') = change_status failing admin_id id status s in
    let (rest, s'') = change_all failing admin_id ids status s' in (counted id error rest, s'')

abbrev pub respond_bulk :
    List String
    → (List BulkActionResult × ℕ × ℕ) × MerchantStore
    → BulkActionResponse × MerchantStore
respond_bulk ids ((results, successful, failed), s) =
    (record { results = results; total = length ids; successful = successful; failed = failed }, s)

unfoldable pub bulk_update_status :
    Failing
    → (admin_id : String) → List String
    → MerchantStatus
    → MerchantStore
    → BulkActionResponse × MerchantStore
unfolding change_all
bulk_update_status failing admin_id ids status s =
    respond_bulk ids (change_all failing admin_id ids status s)

counted_sum :
    (id : String) (error : Option String) (rest : List BulkActionResult × ℕ × ℕ) (n : ℕ)
    → rest.1 + rest.2 ≡ n
    → (counted id error rest).1 + (counted id error rest).2 ≡ suc n
counted_sum id none rest n e = omega (arith, e)
counted_sum id (some x) rest n e = omega (arith, e)

counted_id :
    (id : String) (error : Option String) (rest : List BulkActionResult × ℕ × ℕ)
    → map (λ (r : BulkActionResult). r.id) (counted id error rest).0
      ≡ id ∷ map (λ (r : BulkActionResult). r.id) rest.0
counted_id id none rest = refl
counted_id id (some x) rest = refl

counts_all :
    (failing : Failing) (admin_id : String) (ids : List String) (status : MerchantStatus)
    (s : MerchantStore)
    → let (results, successful, failed) = (change_all failing admin_id ids status s).0 in
      successful + failed ≡ length ids
unfolding change_all
counts_all failing admin_id [] status s = omega arith
counts_all failing admin_id (id ∷ ids) status s =
    let (error, s') = change_status failing admin_id id status s in
    counted_sum id error (change_all failing admin_id ids status s').0 (length ids)
      (counts_all failing admin_id ids status s')

names_all :
    (failing : Failing) (admin_id : String) (ids : List String) (status : MerchantStatus)
    (s : MerchantStore)
    → map (λ (r : BulkActionResult). r.id) (change_all failing admin_id ids status s).0.0 ≡ ids
unfolding change_all
names_all failing admin_id [] status s = refl
names_all failing admin_id (id ∷ ids) status s =
    let (error, s') = change_status failing admin_id id status s in
    counted_id id error (change_all failing admin_id ids status s').0
    ∙ ap (λ xs. id ∷ xs) (names_all failing admin_id ids status s')

-- Whatever fails on the way, the answer has one result for each id, in their order, and its counts of successes and
-- failures add up to its total.
bulk_update_status_lem :
    (failing : Failing) (admin_id : String) (ids : List String) (status : MerchantStatus)
    (s : MerchantStore)
    → let (answer, s') = bulk_update_status failing admin_id ids status s in
      (map (λ (r : BulkActionResult). r.id) answer.results ≡ ids)
      × (answer.successful + answer.failed ≡ answer.total)
unfolding bulk_update_status
bulk_update_status_lem failing admin_id ids status s =
    (names_all failing admin_id ids status s, counts_all failing admin_id ids status s)
