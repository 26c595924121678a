-- ===== src/Platform/Loops.antt =====
-- What a loop of calls adds to the history.
use dabdub.Prelude.{All, subst, List, [], ◌∷◌, ◌≡◌, ◌⊎◌, refl, arith, inl, inr, Option-cases}
use dabdub.Platform.Actions.{
  Call, Env, Result, ok, err, Error, Action, History, ◌>>=◌, ◌>>◌, for_each, perform,
}

-- The history after one call for each item, in order.
abbrev pub after : {A : Type 0} → (A → Call) → List A → History → History
after f [] h = h
after f (x ∷ xs) h = after f xs (f x ∷ h)

-- A method returns, or throws.
pub Result-cases :
    (r : Result (Unit {0}) × History)
    → ((k : History) × (r ≡ (ok tt, k))) ⊎ ((e : Error) × (k : History) × (r ≡ (err e, k)))
Result-cases (ok tt, k) = inl (k, refl)
Result-cases (err e, k) = inr (e, k, refl)

module _ (env : Env) {A : Type 0} (f : A → Call) where
  -- A loop of calls makes its call for every item, or throws.
  pub for_each-cases :
      (xs : List A) (h : History)
      → (for_each xs (λ x. perform env (f x)) h ≡ (ok tt, after f xs h))
        ⊎ ((e : Error) × (k : History) × (for_each xs (λ x. perform env (f x)) h ≡ (err e, k)))
  unfolding perform
  for_each-cases [] h = inl refl
  for_each-cases (x ∷ xs) h = elim (Option-cases (env.throws (f x) h)) [
    | inl fine ↦ elim (for_each-cases xs (f x ∷ h)) [
      | inl through ↦ inl (ground arith)
      | inr (e, k, thrown) ↦ inr (e, k, ground arith)
    ]
    | inr (x, bad) ↦ inr (x, h, ground arith)
  ]

-- Whether it returns or throws, the method keeps what holds of the history.
abbrev pub Keeps : {A : Type 0} → (History → Type 0) → Action A → Type 0
Keeps P m = (h : History) → P h → P (m h).1

module _ (P : History → Type 0) where
  pub >>-Keeps :
      {A B : Type 0} (m : Action A) (f : A → Action B)
      → Keeps P m
      → ((a : A) → Keeps P (f a))
      → Keeps P (m >>= f)
  >>-Keeps {A} {B} m f km kf h p = go (m h) (km h p)
    where
      go :
          (r : Result A × History)
          → P r.1
          → P (elim r.0 as (λ _. Result B × History) [ ok a ↦ f a r.1 | err e ↦ (err e, r.1) ]).1
      go (ok a, k) q = kf a k q
      go (err e, k) q = q

  pub for_each-Keeps :
      {A : Type 0} (xs : List A) (body : A → Action (Unit {0}))
      → ((x : A) → Keeps P (body x))
      → Keeps P (for_each xs body)
  for_each-Keeps [] body k h p = p
  for_each-Keeps (x ∷ xs) body k h p =
      >>-Keeps (body x) (λ _. for_each xs body) (k x) (λ _. for_each-Keeps xs body k) h p

-- A loop that returns has done for every item what its body does, where the later rounds keep it.
pub for_each-All :
    {A : Type 0} (Q : A → History → Type 0) (body : A → Action (Unit {0}))
    → ((x : A) (h h' : History) → body x h ≡ (ok tt, h') → Q x h')
    → ((x y : A) → Keeps (Q x) (body y))
    → (xs : List A) (h h' : History) → for_each xs body h ≡ (ok tt, h')
    → All (λ x. Q x h') xs
for_each-All Q body does keeps [] h h' e = tt
for_each-All Q body does keeps (x ∷ xs) h h' e = elim (Result-cases (body x h)) [
  | inl (k, done) ↦
      let rest : for_each xs body k ≡ (ok tt, h') = ground arith in
      let kept = for_each-Keeps (Q x) xs body (keeps x) k (does x h k done) in
      (
        subst (λ (r : Result (Unit {0}) × History). Q x r.1) rest kept,
        for_each-All Q body does keeps xs k h' rest,
      )
  | inr (e', k, thrown) ↦ absurd (ground arith)
]

-- From `P`, the method ends with `Q`, if it returns.
abbrev pub Ensures : (P : History → Type 0) → Action (Unit {0}) → (Q : History → Type 0) → Type 0
Ensures P m Q = (h h' : History) → P h → m h ≡ (ok tt, h') → Q h'

pub >>-Ensures :
    (P Q R : History → Type 0) (m k : Action (Unit {0}))
    → Ensures P m Q
    → Ensures Q k R
    → Ensures P (m >> k) R
>>-Ensures P Q R m k first second h h' p e = elim (Result-cases (m h)) [
  | inl (j, done) ↦ second j h' (first h j p done) (ground arith)
  | inr (x, j, thrown) ↦ absurd (ground arith)
]

pub Keeps-Ensures : (P : History → Type 0) (m : Action (Unit {0})) → Keeps P m → Ensures P m P
Keeps-Ensures P m keeps h h' p e = subst (λ (r : Result (Unit {0}) × History). P r.1) e (keeps h p)

-- A loop keeps `P` and does for every item what its body does.
pub for_each-Ensures :
    {A : Type 0} (P : History → Type 0) (Q : A → History → Type 0) (body : A → Action (Unit {0}))
    (xs : List A)
    → ((x : A) → Keeps P (body x))
    → ((x : A) (h h' : History) → body x h ≡ (ok tt, h') → Q x h')
    → ((x y : A) → Keeps (Q x) (body y))
    → Ensures P (for_each xs body) (λ h. P h × All (λ x. Q x h) xs)
for_each-Ensures P Q body xs stays does keeps h h' p e = (
  Keeps-Ensures P (for_each xs body) (for_each-Keeps P xs body stays) h h' p e,
  for_each-All Q body does keeps xs h h' e,
)

-- `Keeps` as a property of the runs: however a run that begins with `P` ends, it ends with `P`.
abbrev pub Always : (P : History → Type 0) → Action (Unit {0}) → Type 0
Always P m = (h h' : History) (r : Result (Unit {0})) → P h → m h ≡ (r, h') → P h'

pub Keeps-Always : (P : History → Type 0) (m : Action (Unit {0})) → Keeps P m → Always P m
Keeps-Always P m keeps h h' r p e = subst (λ (r : Result (Unit {0}) × History). P r.1) e (keeps h p)

pub >>-Always :
    (P : History → Type 0) (m k : Action (Unit {0})) → Always P m → Always P k → Always P (m >> k)
>>-Always P m k first second h h' r p e = elim (Result-cases (m h)) [
  | inl (j, done) ↦ second j h' r (first h j (ok tt) p done) (ground arith)
  | inr (x, j, thrown) ↦
      let same : j ≡ h' = ground arith in subst P same (first h j (err x) p thrown)
]

pub for_each-Always :
    {A : Type 0} (P : History → Type 0) (xs : List A) (body : A → Action (Unit {0}))
    → ((x : A) → Keeps P (body x))
    → Always P (for_each xs body)
for_each-Always P xs body keeps = Keeps-Always P (for_each xs body) (for_each-Keeps P xs body keeps)
