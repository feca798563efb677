-- ===== src/Controllers/Live.antt =====
-- Steps of the reconciler that succeed, with what they answer and what they keep of the object.
pub mod Revision
pub mod Whole
pub mod Ends
pub mod Serves
use cluster_api_provider_vcl.Base.{◌≡◌, refl, ap, String, Bool, true, false}
use cluster_api_provider_vcl.Base.Tests.{if◌then◌else◌}
use cluster_api_provider_vcl.Api.Condition.{Time}
use cluster_api_provider_vcl.Api.VCluster.{VCluster}
use cluster_api_provider_vcl.Runtime.{
  Result, ok, Exec, pure, lift, gets, attempt, continue, ◌>>=◌, wrap_result, wrapped,
}
use cluster_api_provider_vcl.Controllers.State.{State, on_world, edit, edit_now}

-- A call of the world that answers the same, whatever the world.
abbrev pub Gives : {W A : Type 0} → Exec W A → A → Type 0
Gives {W} m a = (w : W) → (m w).0 ≡ ok a

pub Gives-bind :
    {W A B : Type 0} (m : Exec W A) (f : A → Exec W B) (a : A) (b : B)
    → Gives m a
    → Gives (f a) b
    → Gives (m >>= f) b
unfolding ◌>>=◌ continue
Gives-bind m f a b g h w = rw (g w) (h (m w).1)

pub Gives-wrapped :
    {W A : Type 0} (prefix : String) (m : Exec W A) (a : A) → Gives m a → Gives (wrapped prefix m) a
unfolding wrapped wrap_result
Gives-wrapped prefix m a g w = rw (g w) refl

module _ {W : Type 0} (P : VCluster → Type 0) where
  pub data Done {A : Type 0} (Q : A → Type 0) (out : Result A × State W) : Type 0 where
    done : (a : A) (t : State W) → out ≡ (ok a, t) → Q a → P t.vcluster → Done Q out

  -- From an object with the property the step succeeds and keeps it.
  pub record Succeeds {A : Type 0} (m : Exec (State W) A) (Q : A → Type 0) : Type 0 where
    pub at : (s : State W) → P s.vcluster → Done Q (m s)

module _ {W : Type 0} {P : VCluster → Type 0} where
  module _ {A : Type 0} {Q : A → Type 0} where
    pub Succeeds-pure : (a : A) → Q a → Succeeds {W = W} P (pure a) Q
    unfolding pure
    Succeeds-pure a q = record { at = λ s p. done a s refl q p }

    pub Succeeds-lift : (r : Result A) (a : A) → r ≡ ok a → Q a → Succeeds {W = W} P (lift r) Q
    unfolding lift
    Succeeds-lift r a e q = record { at = λ s p. done a s (ap (λ x. (x, s)) e) q p }

    pub Succeeds-gets :
        (f : State W → A) → ((s : State W) → P s.vcluster → Q (f s)) → Succeeds P (gets f) Q
    unfolding gets
    Succeeds-gets f h = record { at = λ s p. done (f s) s refl (h s p) p }

    pub Succeeds-on_world : (m : Exec W A) (a : A) → Gives m a → Q a → Succeeds P (on_world m) Q
    unfolding on_world
    Succeeds-on_world m a g q = record {
      at = λ s p.
          done a (record s { world = (m s.world).1 })
            (ap (λ x. (x, record s { world = (m s.world).1 })) (g s.world)) q p;
    }

    pub Succeeds-wrapped :
        (prefix : String) (m : Exec W A) (a : A)
        → Gives m a
        → Q a
        → Succeeds P (wrapped prefix (on_world m)) Q
    unfolding wrapped on_world wrap_result
    Succeeds-wrapped prefix m a g q = record {
      at = λ s p.
          done a (record s { world = (m s.world).1 })
            (ap (λ x. (wrap_result prefix x, record s { world = (m s.world).1 })) (g s.world)) q p;
    }

    pub Succeeds-if :
        (b : Bool) (m n : Exec (State W) A)
        → (b ≡ true → Succeeds P m Q)
        → (b ≡ false → Succeeds P n Q)
        → Succeeds P (if b then m else n) Q
    Succeeds-if true m n h k = h refl
    Succeeds-if false m n h k = k refl

  -- An attempt succeeds with the answer that the call has.
  pub Succeeds-attempt :
      {A : Type 0} {Q : Result A → Type 0} (m : Exec W A)
      → ((w : W) → Q (m w).0)
      → Succeeds P (attempt (on_world m)) Q
  unfolding attempt on_world
  Succeeds-attempt m h = record {
    at = λ s p. done (m s.world).0 (record s { world = (m s.world).1 }) refl (h s.world) p;
  }

  module _ {Q : Unit {0} → Type 0} where
    pub Succeeds-edit :
        (f : VCluster → VCluster)
        → ((v : VCluster) → P v → P (f v))
        → Q tt
        → Succeeds {W = W} P (edit f) Q
    unfolding edit
    Succeeds-edit f h q = record {
      at = λ s p. done tt (record s { vcluster = f s.vcluster }) refl q (h s.vcluster p);
    }

    pub Succeeds-edit_now :
        (now : W → Time × W) (f : Time → VCluster → VCluster)
        → ((t : Time) (v : VCluster) → P v → P (f t v))
        → Q tt
        → Succeeds P (edit_now now f) Q
    unfolding edit_now
    Succeeds-edit_now now f h q = record {
      at = λ s p.
          let (t, w) = now s.world in
          done tt (record { world = w; vcluster = f t s.vcluster }) refl q (h t s.vcluster p);
    }

  module _ {A B : Type 0} {Q : A → Type 0} {R : B → Type 0} where
    bound :
        (out : Result A × State W) (f : A → Exec (State W) B)
        → Done P Q out
        → ((a : A) → Q a → Succeeds P (f a) R)
        → Done P R (continue out.0 f out.1)
    unfolding continue
    bound out f (done a t e q p) k = rw e (((k a q).at t p))

    pub Succeeds-bind :
        (m : Exec (State W) A) (f : A → Exec (State W) B)
        → Succeeds P m Q
        → ((a : A) → Q a → Succeeds P (f a) R)
        → Succeeds P (m >>= f) R
    unfolding ◌>>=◌
    Succeeds-bind m f h k = record { at = λ s p. bound (m s) f (h.at s p) k }

-- What a success left.
pub succeeded :
    {W A : Type 0} (P : VCluster → Type 0) (Q : A → Type 0) (out : Result A × State W)
    → Done P Q out
    → (a : A) × (out.0 ≡ ok a) × P out.1.vcluster
succeeded P Q out (done a t e q p) = (a, ap (λ o. o.0) e, rw (ap (λ o. o.1) e) p)
