-- ===== src/Runtime.antt =====
-- What the code takes from Go and from the Kubernetes libraries: errors, fallible steps on a
-- state, and a chain of such steps.
pub mod Steady
use Prim.Native.String.{◌++◌ as append}
use cluster_api_provider_vcl.Base.{String, Bool, true, false, ◌≡◌, refl, ◌⊎◌, inl, inr}

-- `kerrors.IsNotFound` and `kerrors.IsConflict` look at the reason.
pub data Reason : Type 0 where
  not_found conflict other : Reason

pub record Error : Type 0 where
  pub reason : Reason
  pub message : String

unfoldable pub is_not_found : Error → Bool
is_not_found e = elim e.reason [ not_found ↦ true | _ ↦ false ]

unfoldable pub is_conflict : Error → Bool
is_conflict e = elim e.reason [ conflict ↦ true | _ ↦ false ]

-- `fmt.Errorf` and `errors.Errorf` with no error to wrap.
abbrev pub errorf : String → Error
errorf m = record { reason = other; message = m }

pub data Result {ℓ} (A : Type ℓ) : Type ℓ where
  ok : A → Result A
  err : Error → Result A

pub Result-cases {ℓ} :
    {A : Type ℓ} (r : Result A) → ((e : Error) × (r ≡ err e)) ⊎ ((a : A) × (r ≡ ok a))
Result-cases (ok a) = inr (a, refl)
Result-cases (err e) = inl (e, refl)

-- `if err != nil { return … }` after a call without effects.
abbrev pub and_then {ℓ κ} : {A : Type ℓ} {B : Type κ} → Result A → (A → Result B) → Result B
and_then (ok a) f = f a
and_then (err e) f = err e

-- A call that may fail and that leaves what it wrote, whether it fails or not.
abbrev pub Exec {ℓ} : Type ℓ → Type ℓ → Type ℓ
Exec S A = S → Result A × S

module _ {ℓ} {S A : Type ℓ} where
  unfoldable pub pure : A → Exec S A
  pure a s = (ok a, s)

  unfoldable pub raise : Error → Exec S A
  raise e s = (err e, s)

  unfoldable pub lift : Result A → Exec S A
  lift r s = (r, s)

  unfoldable pub gets : (S → A) → Exec S A
  gets f s = (ok (f s), s)

  -- `err != nil` looked at by the code itself.
  unfoldable pub attempt : Exec S A → Exec S (Result A)
  attempt m s = let (r, s') = m s in (ok r, s')

unfoldable pub modify : {S : Type 0} → (S → S) → Exec S (Unit {0})
modify f s = (ok tt, f s)

module _ {ℓ} {S A B : Type ℓ} where
  unfoldable pub continue : Result A → (A → Exec S B) → Exec S B
  continue (ok a) f s = f a s
  continue (err e) f s = (err e, s)

  infixl 10 ◌>>=◌ ◌>>◌
  unfoldable pub ◌>>=◌ : Exec S A → (A → Exec S B) → Exec S B
  unfolding continue pure raise lift gets attempt modify
  ◌>>=◌ m f s = let (r, s') = m s in continue r f s'

  abbrev pub ◌>>◌ : Exec S A → Exec S B → Exec S B
  m >> n = m >>= λ _. n

abbrev pub wrap : String → Error → Error
wrap prefix e = record e { message = append prefix e.message }

unfoldable pub wrap_result {ℓ} : {A : Type ℓ} → String → Result A → Result A
wrap_result prefix (ok a) = ok a
wrap_result prefix (err e) = err (wrap prefix e)

-- `fmt.Errorf("…: %w", err)` around the error of a call.
unfoldable pub wrapped {ℓ} : {S A : Type ℓ} → String → Exec S A → Exec S A
unfolding wrap_result
wrapped prefix m s = let (r, s') = m s in (wrap_result prefix r, s')

-- `errors.Wrap`
unfoldable pub wrap_error {ℓ} : {A : Type ℓ} → String → Result A → Result A
wrap_error prefix (ok a) = ok a
wrap_error prefix (err e) = err (record e { message = append prefix (append ": " e.message) })
