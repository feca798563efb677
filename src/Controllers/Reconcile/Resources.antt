-- ===== src/Controllers/Reconcile/Resources.antt =====
-- What is gone when the resources of an object were deleted.
use cluster_api_provider_vcl.Base.{◌≡◌, ◌∙◌, refl, ap, String, true, false, ◌==◌, arith, inl, inr}
use cluster_api_provider_vcl.Base.Tests.{Bool-cases}
use cluster_api_provider_vcl.Runtime.{
  Error, Result, ok, err, is_not_found, pure, raise, lift, attempt, continue, ◌>>=◌,
}
use cluster_api_provider_vcl.Kube.{World, HelmClient, NamespacedName}
use cluster_api_provider_vcl.Helm.Secrets.{Release, Codec, get, lookup_string}
use cluster_api_provider_vcl.Patching.Options.{PatchHelper}
use cluster_api_provider_vcl.Controllers.Chart.{reply_release, delete_helm_chart}
use cluster_api_provider_vcl.Controllers.Reconcile.{
  volume_claim, ignore_not_found, delete_resources,
}

module _ {W R H : Type 0} (k : World W R) (helm : HelmClient W) (codec : Codec)
    (helper : PatchHelper W H) (req : NamespacedName) (name : String) where
  -- A call that gave a result in a world gave it in any world equal to it.
  same_world :
      {A B : Type 0} {o : A × W} {a : A} {b c : B} {u w : W}
      → o ≡ (a, u)
      → Path (B × W) (b, u) (c, w)
      → o ≡ (a, w)
  same_world {a} p q = p ∙ ap (λ x. (a, x)) (ap (λ x. x.1) q)

  -- The release: there is none, or another tool owns the latest one, or helm deleted it.
  pub data ReleaseGone (w w' : W) : Type 0 where
    no_release :
        (e : Error)
        → get k.list_secrets codec req.name req.namespace w ≡ (err e, w')
        → is_not_found e ≡ true
        → ReleaseGone w w'
    not_owned :
        (r : Release)
        → get k.list_secrets codec req.name req.namespace w ≡ (ok r, w')
        → (lookup_string "owner" r.secret.labels == "helm") ≡ false
        → ReleaseGone w w'
    uninstalled :
        (r : Release) (u : W)
        → get k.list_secrets codec req.name req.namespace w ≡ (ok r, u)
        → (lookup_string "owner" r.secret.labels == "helm") ≡ true
        → helm.delete req.name req.namespace u ≡ (ok tt, w')
        → ReleaseGone w w'

  pub data ClaimGone (w w' : W) : Type 0 where
    deleted :
        k.delete_volume_claim (volume_claim req.namespace name) w ≡ (ok tt, w') → ClaimGone w w'
    absent :
        (e : Error)
        → k.delete_volume_claim (volume_claim req.namespace name) w ≡ (err e, w')
        → is_not_found e ≡ true
        → ClaimGone w w'

  reply_release-ReleaseGone :
      (r : Result Release) (w u w' : W)
      → get k.list_secrets codec req.name req.namespace w ≡ (r, u)
      → reply_release k helm codec req.namespace req.name r u ≡ (ok tt, w')
      → ReleaseGone w w'
  unfolding reply_release pure raise
  reply_release-ReleaseGone (err e) w u w' p q = elim (Bool-cases (is_not_found e)) [
    | inl h ↦
        let z : Path (Result (Unit {0}) × W) (ok tt, u) (ok tt, w') = rw h at q in
        no_release e (same_world p z) h
    | inr h ↦
        let z : Path (Result (Unit {0}) × W) (err e, u) (ok tt, w') = rw h at q in ground (arith, z)
  ]
  reply_release-ReleaseGone (ok r) w u w' p q =
      elim (Bool-cases (lookup_string "owner" r.secret.labels == "helm")) [
        | inl h ↦ uninstalled r u p h (rw h at q)
        | inr h ↦
            let z : Path (Result (Unit {0}) × W) (ok tt, u) (ok tt, w') = rw h at q in
            not_owned r (same_world p z) h
      ]

  claim-ClaimGone :
      (r : Result (Unit {0})) (u w w' : W)
      → k.delete_volume_claim (volume_claim req.namespace name) u ≡ (r, w)
      → Path (Result (Unit {0}) × W) (ignore_not_found k helm codec helper r, w) (ok tt, w')
      → ClaimGone u w'
  unfolding ignore_not_found
  claim-ClaimGone (ok _) u w w' p q = deleted (same_world p q)
  claim-ClaimGone (err e) u w w' p q = elim (Bool-cases (is_not_found e)) [
    | inl h ↦ absent e (same_world p q) h
    | inr h ↦
        let z : Path (Result (Unit {0}) × W) (err e, w) (ok tt, w') = rw h at q in ground (arith, z)
  ]

  module _ (w' : W) where
    after_chart :
        (r : Result (Unit {0})) (w u : W)
        → delete_helm_chart k helm codec req.namespace req.name w ≡ (r, u)
        → continue r
            (λ _. attempt (k.delete_volume_claim (volume_claim req.namespace name)) >>= λ c.
              lift (ignore_not_found k helm codec helper c))
            u
          ≡ (ok tt, w')
        → (v : W) × ReleaseGone w v × ClaimGone v w'
    unfolding continue ◌>>=◌ attempt lift
    after_chart (err e) w u p q = ground (arith, q)
    after_chart (ok _) w u p q =
        let (r, v) = get k.list_secrets codec req.name req.namespace w in
        let (c, x) = k.delete_volume_claim (volume_claim req.namespace name) u in
        (
          u,
          reply_release-ReleaseGone r w v u refl (unfold delete_helm_chart in p),
          claim-ClaimGone c u x w' refl q,
        )

    -- Where the deletion of the resources of an object succeeds, first the helm release and then
    -- the volume claim is gone: there was none, or it was deleted without an error; a latest
    -- release whose secret has not the owner helm is left alone.
    pub delete_resources-Gone :
        (w : W)
        → delete_resources k helm codec helper req name w ≡ (ok tt, w')
        → (u : W) × ReleaseGone w u × ClaimGone u w'
    unfolding delete_resources ◌>>=◌
    delete_resources-Gone w p =
        let (r, u) = delete_helm_chart k helm codec req.namespace req.name w in
        after_chart r w u refl p
