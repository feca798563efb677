-- ===== src/Controllers/Ensures.antt =====
-- What a step of the reconciler leaves in the object: after a success, and after an error.
use cluster_api_provider_vcl.Base.{Bool, true, false, ◌≡◌, refl}
use cluster_api_provider_vcl.Base.Tests.{if◌then◌else◌}
use cluster_api_provider_vcl.Api.Condition.{Time}
use cluster_api_provider_vcl.Api.VCluster.{VCluster}
use cluster_api_provider_vcl.Runtime.{
  Error, Result, ok, err, Exec, pure, raise, lift, gets, continue, ◌>>=◌,
}
use cluster_api_provider_vcl.Controllers.State.{State, on_world, edit, edit_now}

module _ {W : Type 0} {A : Type 0} (Q : A → VCluster → Type 0) (E : VCluster → Type 0) where
  abbrev pub Leaves : Result A × State W → Type 0
  Leaves (ok a, s) = Q a s.vcluster
  Leaves (err e, s) = E s.vcluster

pub record Ensures {W A : Type 0} (P : VCluster → Type 0) (m : Exec (State W) A)
    (Q : A → VCluster → Type 0) (E : VCluster → Type 0) : Type 0 where
  pub at : (s : State W) → P s.vcluster → Leaves Q E (m s)

module _ {W A : Type 0} {P : VCluster → Type 0} {Q : A → VCluster → Type 0}
    {E : VCluster → Type 0} where
  pub Ensures-pure : (a : A) → ((v : VCluster) → P v → Q a v) → Ensures {W = W} P (pure a) Q E
  unfolding pure
  Ensures-pure a h = record { at = λ s p. h s.vcluster p }

  pub Ensures-raise : (e : Error) → ((v : VCluster) → P v → E v) → Ensures {W = W} P (raise e) Q E
  unfolding raise
  Ensures-raise e h = record { at = λ s p. h s.vcluster p }

  pub Ensures-if :
      (b : Bool) (m n : Exec (State W) A)
      → (b ≡ true → Ensures P m Q E)
      → (b ≡ false → Ensures P n Q E)
      → Ensures P (if b then m else n) Q E
  Ensures-if true m n km kn = km refl
  Ensures-if false m n km kn = kn refl

module _ {W A : Type 0} {P E : VCluster → Type 0} (weaken : (v : VCluster) → P v → E v) where
  pub leave : (r : Result A) (s : State W) → P s.vcluster → Leaves (λ _. P) E (r, s)
  leave (ok a) s p = p
  leave (err e) s p = weaken s.vcluster p

  -- A call of the world and a call of a library do not touch the object.
  pub Ensures-on_world : (m : Exec W A) → Ensures {W = W} P (on_world m) (λ _. P) E
  unfolding on_world
  Ensures-on_world m = record {
    at = λ s p. let (r, w) = m s.world in leave r (record s { world = w }) p;
  }

  pub Ensures-lift : (r : Result A) → Ensures {W = W} P (lift r) (λ _. P) E
  unfolding lift
  Ensures-lift r = record { at = λ s p. leave r s p }

  looked_up :
      (r r' : Result A) (s : State W)
      → r ≡ r'
      → P s.vcluster
      → Leaves (λ a v. P v × (r ≡ ok a)) E (r', s)
  looked_up r (ok a) s e p = (p, e)
  looked_up r (err x) s e p = weaken s.vcluster p

  -- A call of a library, with what it answered.
  pub Ensures-lift_eq : (r : Result A) → Ensures {W = W} P (lift r) (λ a v. P v × (r ≡ ok a)) E
  unfolding lift
  Ensures-lift_eq r = record { at = λ s p. looked_up r r s refl p }

module _ {W : Type 0} {P : VCluster → Type 0} {E : VCluster → Type 0} where
  pub Ensures-gets : {A : Type 0} (f : State W → A) → Ensures {W = W} P (gets f) (λ _. P) E
  unfolding gets
  Ensures-gets f = record { at = λ s p. p }

  pub Ensures-gets_vcluster : Ensures {W = W} P (gets (λ s. s.vcluster)) (λ a v. P v × (a ≡ v)) E
  unfolding gets
  Ensures-gets_vcluster = record { at = λ s p. (p, refl) }

  module _ {Q : VCluster → Type 0} where
    pub Ensures-edit :
        (f : VCluster → VCluster)
        → ((v : VCluster) → P v → Q (f v))
        → Ensures {W = W} P (edit f) (λ _. Q) E
    unfolding edit
    Ensures-edit f h = record { at = λ s p. h s.vcluster p }

    pub Ensures-edit_now :
        (now : W → Time × W) (f : Time → VCluster → VCluster)
        → ((t : Time) (v : VCluster) → P v → Q (f t v))
        → Ensures {W = W} P (edit_now now f) (λ _. Q) E
    unfolding edit_now
    Ensures-edit_now now f h = record { at = λ s p. let (t, w) = now s.world in h t s.vcluster p }

module _ {W A B : Type 0} {Q : A → VCluster → Type 0} {R : B → VCluster → Type 0}
    {E : VCluster → Type 0} where
  next :
      (r : Result A) (s : State W) (f : A → Exec (State W) B)
      → Leaves Q E (r, s)
      → ((a : A) → Ensures (Q a) (f a) R E)
      → Leaves R E (continue r f s)
  unfolding continue
  next (ok a) s f h k = (k a).at s h
  next (err e) s f h k = h

  module _ {P : VCluster → Type 0} where
    pub Ensures-bind :
        (m : Exec (State W) A) (f : A → Exec (State W) B)
        → Ensures P m Q E
        → ((a : A) → Ensures (Q a) (f a) R E)
        → Ensures P (m >>= f) R E
    unfolding ◌>>=◌
    Ensures-bind m f km kf = record { at = λ s p. let (r, s') = m s in next r s' f (km.at s p) kf }

module _ {W A : Type 0} (P : VCluster → Type 0) where
  left_in : (r : Result A) (s : State W) → Leaves (λ _. P) P (r, s) → P s.vcluster
  left_in (ok a) s h = h
  left_in (err e) s h = h

  -- What a step keeps is there however it ends.
  pub left :
      (m : Exec (State W) A) (s : State W)
      → Ensures P m (λ _. P) P
      → P s.vcluster
      → P (m s).1.vcluster
  left m s f h = let (r, s') = m s in left_in r s' (f.at s h)
