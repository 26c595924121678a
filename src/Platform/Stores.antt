-- ===== src/Platform/Stores.antt =====
-- Methods over a store that they read and write directly: a function from the store to a result and
-- the store left, with what was written before an exception kept.
use dabdub.Prelude.{◌≡◌, refl, Bool, true, false, if◌then◌else◌}
use dabdub.Platform.Actions.{Result, ok, err}

abbrev pub StoreAction : (S A : Type 0) → Type 0
StoreAction S A = S → Result A × S

-- What follows a check that only reads.
abbrev pub checked : {S A B : Type 0} → Result A → (A → StoreAction S B) → StoreAction S B
checked (ok a) f s = f a s
checked (err e) f s = (err e, s)

-- What follows a write, on the store as it is then.
abbrev pub after_write :
    {S A B : Type 0} → StoreAction S A → (A → StoreAction S B) → StoreAction S B
after_write m f s = checked (m s).0 f (m s).1

-- What holds of the store before a method holds after it, whether it returns or throws.
abbrev pub StoreKeeps : {S A : Type 0} → (S → Type 0) → StoreAction S A → Type 0
StoreKeeps {S} P m = (s : S) → P s → P (m s).1

module _ {S A B : Type 0} (P : S → Type 0) where
  pub checked-StoreKeeps :
      (r : Result A) (f : A → StoreAction S B)
      → ((a : A) → StoreKeeps P (f a))
      → StoreKeeps P (checked r f)
  checked-StoreKeeps (ok a) f keeps s p = keeps a s p
  checked-StoreKeeps (err e) f keeps s p = p

  pub after_write-StoreKeeps :
      (m : StoreAction S A) (f : A → StoreAction S B)
      → StoreKeeps P m
      → ((a : A) → StoreKeeps P (f a))
      → StoreKeeps P (after_write m f)
  after_write-StoreKeeps m f first keeps s p =
      checked-StoreKeeps (m s).0 f keeps (m s).1 (first s p)

-- A test between two ends of a method.
pub if-store :
    {S A : Type 0} (P : S → Type 0) (c : Bool) (x y : Result A × S)
    → (c ≡ true → P x.1)
    → (c ≡ false → P y.1)
    → P (if c then x else y).1
if-store P true x y p q = p refl
if-store P false x y p q = q refl
