-- ===== src/Controllers/Finalizer/Stored.antt =====
-- The finalizer, where the server stores what it is sent.
use mathlib.Core.Path.{subst}
use cluster_api_provider_vcl.Controllers.Finalizer.Laws.{has_added}
use cluster_api_provider_vcl.Base.{
  ◌≡◌, ◌∙◌, refl, ap, sym, String, true, inl, inr, ◌++◌, ◌∷◌, [], arith,
}
use cluster_api_provider_vcl.Base.Tests.{Bool-cases}
use cluster_api_provider_vcl.Api.VCluster.{VCluster}
use cluster_api_provider_vcl.Runtime.{Result, ok, err, Exec, continue, ◌>>=◌}
use cluster_api_provider_vcl.Controllers.State.{State, edit}
use cluster_api_provider_vcl.Controllers.Finalizer.{
  ensure_finalizer, has_finalizer, update_object, with_finalizers,
}

-- The answer of the server has the finalizers that it was sent.
abbrev pub Stores : {W : Type 0} → (VCluster → Exec W VCluster) → Type 0
Stores {W} update =
    (v : VCluster) (w : W) (u : VCluster)
    → (update v w).0 ≡ ok u
    → u.metadata.finalizers ≡ v.metadata.finalizers

module _ {W : Type 0} (update : VCluster → Exec W VCluster) (stores : Stores update) where
  updated :
      (f : String) (s t : State W) (r : Result VCluster)
      → (update s.vcluster s.world).0 ≡ r
      → update_object update s ≡ (ok tt, t)
      → has_finalizer f s.vcluster.metadata.finalizers ≡ true
      → has_finalizer f t.vcluster.metadata.finalizers ≡ true
  unfolding update_object
  updated f s t (ok v) q p h =
      let r : update_object update s
          ≡ (ok tt, record { world = (update s.vcluster s.world).1; vcluster = v }) =
        rw (update_object, q) refl in
      let e : v ≡ t.vcluster = ap (λ x. x.1.vcluster) (sym r ∙ p) in
      subst (λ x. has_finalizer f x.metadata.finalizers ≡ true) e
        (subst (λ fs. has_finalizer f fs ≡ true) (sym (stores s.vcluster s.world v q)) h)
  updated f s t (err e) q p h =
      let r : (update_object update s).0 ≡ err e = rw (update_object, q) refl in
      let z = sym r ∙ ap (λ x. x.0) p in ground arith

  -- Where `EnsureFinalizer` succeeds the object has the finalizer.
  pub ensure_finalizer-has :
      (f : String) (s t : State W)
      → ensure_finalizer update f s ≡ (ok tt, t)
      → has_finalizer f t.vcluster.metadata.finalizers ≡ true
  unfolding ensure_finalizer ◌>>=◌ edit continue
  ensure_finalizer-has f s t p =
      let fs = s.vcluster.metadata.finalizers in
      elim (Bool-cases (has_finalizer f fs)) [
        | inl e ↦
            let r : ensure_finalizer update f s ≡ (ok tt, s) = rw (ensure_finalizer, e) refl in
            subst (λ x. has_finalizer f x.vcluster.metadata.finalizers ≡ true)
              (ap (λ x. x.1) (sym r ∙ p)) e
        | inr e ↦
            let added = record s { vcluster = with_finalizers (fs ++ f ∷ []) s.vcluster } in
            let r : ensure_finalizer update f s ≡ update_object update added =
              rw (ensure_finalizer, e) refl in
            updated f added t _ refl (sym r ∙ p) (has_added f fs)
      ]
