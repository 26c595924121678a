-- ===== src/Platform/Runs/Ends.antt =====
-- What holds after a method, whether it returns or throws.
use dabdub.Prelude.{subst, ◌∷◌, ◌≡◌, Option, none, some}
use dabdub.Platform.Actions.{
  Call, Env, Result, ok, err, Error, Action, History, ◌>>◌, try_catch, perform,
}
use dabdub.Platform.Loops.{Keeps}

-- What a method keeps holds after any of its runs.
pub Keeps-run :
    {A : Type 0} (P : History → Type 0) (m : Action A) (h h' : History) (r : Result A)
    → Keeps P m
    → P h
    → m h ≡ (r, h')
    → P h'
Keeps-run {A} P m h h' r keeps p e = subst (λ (x : Result A × History). P x.1) e (keeps h p)

-- What holds with the call made and without it holds after it.
pub perform-either :
    (P : History → Type 0) (env : Env) (c : Call) (h : History)
    → P (c ∷ h)
    → P h
    → P (perform env c h).1
unfolding perform
perform-either P env c h made failed = go (env.throws c h)
  where
    answer : Option Error → Result (Unit {0}) × History
    answer none = (ok tt, c ∷ h)
    answer (some x) = (err x, h)

    go : (x : Option Error) → P (answer x).1
    go none = made
    go (some x) = failed

-- What holds after the rest, with the call made, and without both holds after both.
pub perform->>-either :
    {B : Type 0} (P : History → Type 0) (env : Env) (c : Call) (rest : Action B) (h : History)
    → P (rest (c ∷ h)).1
    → P h
    → P ((perform env c >> rest) h).1
unfolding perform
perform->>-either {B} P env c rest h made failed = go (env.throws c h)
  where
    answer : Option Error → Result (Unit {0}) × History
    answer none = (ok tt, c ∷ h)
    answer (some x) = (err x, h)

    go :
        (x : Option Error)
        → P
            (elim (answer x).0 as (λ _. Result B × History) [
              | ok a ↦ rest (answer x).1
              | err y ↦ (err y, (answer x).1)
            ]).1
    go none = made
    go (some x) = failed

-- A call that keeps what holds, whether it is made or throws.
pub perform-Keeps :
    (P : History → Type 0) (env : Env) (c : Call)
    → ((h : History) → P h → P (c ∷ h))
    → Keeps P (perform env c)
perform-Keeps P env c step h p = perform-either P env c h (step h p) p

-- From `P`, the method ends with `Q`, whether it returns or throws.
abbrev pub Leads :
    {A : Type 0} → (P : History → Type 0) → Action A → (Q : History → Type 0) → Type 0
Leads P m Q = (h : History) → P h → Q (m h).1

module _ (P Q : History → Type 0) (weaken : (h : History) → P h → Q h) where
  pub >>-Leads :
      {A B : Type 0} (m : Action A) (rest : Action B)
      → Keeps P m
      → Leads P rest Q
      → Leads P (m >> rest) Q
  >>-Leads {A} {B} m rest keeps later h p = go (m h) (keeps h p)
    where
      go :
          (r : Result A × History)
          → P r.1
          → Q (elim r.0 as (λ _. Result B × History) [ ok a ↦ rest r.1 | err e ↦ (err e, r.1) ]).1
      go (ok a, k) q = later k q
      go (err y, k) q = weaken k q

  pub try_catch-Leads :
      {A : Type 0} (m : Action A) (handler : Error → Action A)
      → Keeps P m
      → ((e : Error) → Leads P (handler e) Q)
      → Leads P (try_catch m handler) Q
  try_catch-Leads {A} m handler keeps later h p = go (m h) (keeps h p)
    where
      go :
          (r : Result A × History)
          → P r.1
          → Q
              (elim r.0 as (λ _. Result A × History) [
                | ok a ↦ (ok a, r.1)
                | err e ↦ handler e r.1
              ]).1
      go (ok a, k) q = weaken k q
      go (err y, k) q = later y k q

-- What holds after a method and is kept by the rest, or by the `catch`, holds after both.
pub >>-after :
    {A B : Type 0} (P : History → Type 0) (m : Action A) (rest : Action B) (h : History)
    → P (m h).1
    → Keeps P rest
    → P ((m >> rest) h).1
>>-after {A} {B} P m rest h p keeps = go (m h) p
  where
    go :
        (x : Result A × History)
        → P x.1
        → P (elim x.0 as (λ _. Result B × History) [ ok a ↦ rest x.1 | err y ↦ (err y, x.1) ]).1
    go (ok a, k) q = keeps k q
    go (err y, k) q = q

pub try_catch-after :
    {A : Type 0} (P : History → Type 0) (m : Action A) (handler : Error → Action A) (h : History)
    → P (m h).1
    → ((e : Error) → Keeps P (handler e))
    → P (try_catch m handler h).1
try_catch-after {A} P m handler h p keeps = go (m h) p
  where
    go :
        (x : Result A × History)
        → P x.1
        → P (elim x.0 as (λ _. Result A × History) [ ok a ↦ (ok a, x.1) | err y ↦ handler y x.1 ]).1
    go (ok a, k) q = q
    go (err y, k) q = keeps y k q
