-- ===== src/Platform/Runs/Cases.antt =====
-- What a run of a method tells of the runs of its parts.
use dabdub.Prelude.{
  Bool, true, false, if◌then◌else◌, sym, ap, ◌∙◌, ◌∷◌, ◌≡◌, ◌⊎◌, refl, inl, inr, Option, none, some,
  arith,
}
use dabdub.Platform.Actions.{
  Call, Env, Result, ok, err, Error, Action, History, ◌>>=◌, ◌>>◌, throw, try_catch, attempt,
  perform,
}

-- A call and what follows: the rest runs after it, or it throws and that is all.
pub perform->> :
    {B : Type 0} (env : Env) (c : Call) (rest : Action B) (h h' : History) (r : Result B)
    → (perform env c >> rest) h ≡ (r, h')
    → (rest (c ∷ h) ≡ (r, h')) ⊎ ((h' ≡ h) × ((e : Error) × (r ≡ err e)))
unfolding perform
perform->> {B} env c rest h h' r e = go (env.throws c h) e
  where
    answer : Option Error → Result (Unit {0}) × History
    answer none = (ok tt, c ∷ h)
    answer (some x) = (err x, h)

    go :
        (x : Option Error)
        → elim (answer x).0 as (λ _. Result B × History) [
          | ok a ↦ rest (answer x).1
          | err y ↦ (err y, (answer x).1)
        ]
          ≡ (r, h')
        → (rest (c ∷ h) ≡ (r, h')) ⊎ ((h' ≡ h) × ((e : Error) × (r ≡ err e)))
    go none run = inl run
    go (some x) run = inr (sym (ap (λ z. z.1) run), (x, sym (ap (λ z. z.0) run)))

-- A method and what follows: the rest runs after it, or it throws and that is all.
pub >>-cases :
    {A B : Type 0} (m : Action A) (rest : Action B) (h h' : History) (r : Result B)
    → (m >> rest) h ≡ (r, h')
    → ((a : A) × (k : History) × (m h ≡ (ok a, k)) × (rest k ≡ (r, h')))
      ⊎ ((e : Error) × (m h ≡ (err e, h')) × (r ≡ err e))
>>-cases {A} {B} m rest h h' r e = go (m h) refl e
  where
    go :
        (x : Result A × History)
        → m h ≡ x
        → elim x.0 as (λ _. Result B × History) [ ok a ↦ rest x.1 | err y ↦ (err y, x.1) ] ≡ (r, h')
        → ((a : A) × (k : History) × (m h ≡ (ok a, k)) × (rest k ≡ (r, h')))
          ⊎ ((e : Error) × (m h ≡ (err e, h')) × (r ≡ err e))
    go (ok a, k) done run = inl (a, k, done, run)
    go (err y, k) thrown run = inr (y, thrown ∙ ap (λ z. (err y, z.1)) run, sym (ap (λ z. z.0) run))

-- A `try` whose `catch` throws again ends like the method in it, with another error.
pub try_catch-cases :
    {A : Type 0} (m : Action A) (to : Error → Error) (h h' : History) (r : Result A)
    → try_catch m (λ e. throw (to e)) h ≡ (r, h')
    → ((r' : Result A) × (m h ≡ (r', h'))
        × ((r ≡ r') ⊎ ((e : Error) × (r' ≡ err e) × (r ≡ err (to e)))))
try_catch-cases {A} m to h h' r e = go (m h) refl e
  where
    go :
        (x : Result A × History)
        → m h ≡ x
        → elim x.0 as (λ _. Result A × History) [ ok a ↦ (ok a, x.1) | err y ↦ (err (to y), x.1) ]
          ≡ (r, h')
        → ((r' : Result A) × (m h ≡ (r', h'))
            × ((r ≡ r') ⊎ ((e : Error) × (r' ≡ err e) × (r ≡ err (to e)))))
    go (ok a, k) done run = (ok a, done ∙ ap (λ z. (ok a, z.1)) run, inl (sym (ap (λ z. z.0) run)))
    go (err y, k) done run =
        (err y, done ∙ ap (λ z. (err y, z.1)) run, inr (y, refl, sym (ap (λ z. z.0) run)))

-- A test between two methods.
pub if-cases :
    {A : Type 0} (c : Bool) (m k : Action A) (h : History) (out : Result A × History)
    → (if c then m else k) h ≡ out
    → ((c ≡ true) × (m h ≡ out)) ⊎ ((c ≡ false) × (k h ≡ out))
if-cases true m k h out e = inl (refl, e)
if-cases false m k h out e = inr (refl, e)

-- What both methods of a test end with, where each is taken.
pub if-ends :
    {A : Type 0} (P : Result A × History → Type 0) (c : Bool) (m k : Action A) (h : History)
    → (c ≡ true → P (m h))
    → (c ≡ false → P (k h))
    → P ((if c then m else k) h)
if-ends P true m k h p q = p refl
if-ends P false m k h p q = q refl

-- A call in a `try`, with what follows it, and its `catch`.
pub attempt-cases :
    {B : Type 0} (env : Env) (c : Call) (f : Unit {0} → Action B) (handler : Error → Action B)
    (h : History) (out : Result B × History)
    → attempt (perform env c) f handler h ≡ out
    → ((env.throws c h ≡ none) × (f tt (c ∷ h) ≡ out))
      ⊎ ((x : Error) × (env.throws c h ≡ some x) × (handler x h ≡ out))
unfolding perform
attempt-cases {B} env c f handler h out e = go (env.throws c h) refl e
  where
    answer : Option Error → Result (Unit {0}) × History
    answer none = (ok tt, c ∷ h)
    answer (some x) = (err x, h)

    go :
        (x : Option Error)
        → env.throws c h ≡ x
        → elim (answer x).0 as (λ _. Result B × History) [
          | ok a ↦ f a (answer x).1
          | err y ↦ handler y (answer x).1
        ]
          ≡ out
        → ((env.throws c h ≡ none) × (f tt (c ∷ h) ≡ out))
          ⊎ ((x : Error) × (env.throws c h ≡ some x) × (handler x h ≡ out))
    go none fine run = inl (fine, run)
    go (some x) bad run = inr (x, bad, run)

-- A call and a fixed end: it ends so after the call, or the call throws.
pub perform->>-fixed :
    {B : Type 0} (env : Env) (c : Call) (v : Result B) (h h' : History) (r : Result B)
    → (perform env c >> (λ k. (v, k))) h ≡ (r, h')
    → ((r ≡ v) × (h' ≡ c ∷ h)) ⊎ (((e : Error) × (r ≡ err e)) × (h' ≡ h))
perform->>-fixed {B} env c v h h' r e = elim (perform->> env c (λ k. (v, k)) h h' r e) [
  | inl run ↦ inl (sym (ap (λ z. z.0) run), sym (ap (λ z. z.1) run))
  | inr (same, bad) ↦ inr (bad, same)
]

-- A method that has returned, and what follows it.
pub >>=-ok :
    {A B : Type 0} (m : Action A) (f : A → Action B) (h k : History) (a : A)
    → m h ≡ (ok a, k)
    → (m >>= f) h ≡ f a k
>>=-ok {A} {B} m f h k a e =
    ap
      (λ (x : Result A × History). elim x.0 as (λ _. Result B × History) [
        | ok b ↦ f b x.1
        | err y ↦ (err y, x.1)
      ])
      e

-- A run of two methods that returns: both have returned.
pub >>=-both :
    {A B : Type 0} (m : Action A) (f : A → Action B) (h k : History) (b : B)
    → (m >>= f) h ≡ (ok b, k)
    → (a : A) × (j : History) × (m h ≡ (ok a, j)) × (f a j ≡ (ok b, k))
>>=-both {A} {B} m f h k b e = go (m h) refl e
  where
    go :
        (x : Result A × History)
        → m h ≡ x
        → elim x.0 as (λ _. Result B × History) [ ok a ↦ f a x.1 | err y ↦ (err y, x.1) ]
          ≡ (ok b, k)
        → (a : A) × (j : History) × (m h ≡ (ok a, j)) × (f a j ≡ (ok b, k))
    go (ok a, j) done run = (a, j, done, run)
    go (err y, j) thrown run = absurd (ground arith)
