-- ===== src/Runtime/Steady.antt =====
-- Steps that leave something in the world as it is, such as which files are there.
use cluster_api_provider_vcl.Base.{◌≡◌, ◌∙◌, refl, String, Bool, true, false, Option, none, some}
use cluster_api_provider_vcl.Base.Tests.{if◌then◌else◌}
use cluster_api_provider_vcl.Runtime.{
  Error, Result, ok, err, Exec, pure, raise, lift, attempt, continue, wrapped, ◌>>=◌,
}

-- The step leaves it, whether it fails or not.
abbrev pub IsSteady : {W A C : Type 0} → (W → C) → Exec W A → Type 0
IsSteady count m = (w : _) → count (m w).1 ≡ count w

module _ {W : Type 0} {C : Type 0} (count : W → C) where
  pub pure-IsSteady : {A : Type 0} (a : A) → IsSteady count (pure a)
  unfolding pure
  pure-IsSteady a w = refl

  pub raise-IsSteady : (A : Type 0) (e : Error) → IsSteady {A = A} count (raise e)
  unfolding raise
  raise-IsSteady A e w = refl

  pub lift-IsSteady : {A : Type 0} (r : Result A) → IsSteady count (lift r)
  unfolding lift
  lift-IsSteady r w = refl

  pub attempt-IsSteady : {A : Type 0} (m : Exec W A) → IsSteady count m → IsSteady count (attempt m)
  unfolding attempt
  attempt-IsSteady m h w = h w

  pub wrapped-IsSteady :
      {A : Type 0} (prefix : String) (m : Exec W A)
      → IsSteady count m
      → IsSteady count (wrapped prefix m)
  unfolding wrapped
  wrapped-IsSteady prefix m h w = h w

  pub if-IsSteady :
      {A : Type 0} (b : Bool) (m n : Exec W A)
      → IsSteady count m
      → IsSteady count n
      → IsSteady count (if b then m else n)
  if-IsSteady true m n h k = h
  if-IsSteady false m n h k = k

  -- Either way on from a result leaves it.
  pub elim_result-count :
      {A B : Type 0} (r : Result A) (f : A → B × W) (g : Error → B × W) (n : C)
      → ((a : A) → count (f a).1 ≡ n)
      → ((e : Error) → count (g e).1 ≡ n)
      → count (elim r as (λ _. B × W) [ ok a ↦ f a | err e ↦ g e ]).1 ≡ n
  elim_result-count (ok a) f g n h k = h a
  elim_result-count (err e) f g n h k = k e

  module _ {A B : Type 0} where
    pub continue-IsSteady :
        (r : Result A) (f : A → Exec W B)
        → ((a : A) → IsSteady count (f a))
        → IsSteady count (continue r f)
    unfolding continue
    continue-IsSteady (ok a) f h w = h a w
    continue-IsSteady (err e) f h w = refl

    pub bind-IsSteady :
        (m : Exec W A) (f : A → Exec W B)
        → IsSteady count m
        → ((a : A) → IsSteady count (f a))
        → IsSteady count (m >>= f)
    unfolding ◌>>=◌
    bind-IsSteady m f h k w = let (r, w') = m w in continue-IsSteady r f k w' ∙ h w

    pub elim_result-IsSteady :
        (r : Result A) (f : A → Exec W B) (g : Error → Exec W B)
        → ((a : A) → IsSteady count (f a))
        → ((e : Error) → IsSteady count (g e))
        → IsSteady count (elim r as (λ _. Exec W B) [ ok a ↦ f a | err e ↦ g e ])
    elim_result-IsSteady (ok a) f g h k = h a
    elim_result-IsSteady (err e) f g h k = k e

    pub elim_option-IsSteady :
        (o : Option A) (f : A → Exec W B) (m : Exec W B)
        → ((a : A) → IsSteady count (f a))
        → IsSteady count m
        → IsSteady count (elim o as (λ _. Exec W B) [ none ↦ m | some a ↦ f a ])
    elim_option-IsSteady none f m h k = k
    elim_option-IsSteady (some a) f m h k = h a
