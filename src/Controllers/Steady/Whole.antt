-- ===== src/Controllers/Steady/Whole.antt =====
-- A whole run of `Reconcile`, where the calls of the world, of helm and of the patch helper leave
-- something in the world as it is.
use cluster_api_provider_vcl.Base.{
  ◌≡◌, ◌∙◌, refl, String, Bool, not, ◌&&◌, ◌++◌, ◌∷◌, [], List, inl, inr,
}
use cluster_api_provider_vcl.Base.Tests.{if◌then◌else◌, is_some, Bool-cases}
use cluster_api_provider_vcl.Api.Condition.{ConditionType, ConditionSeverity}
use cluster_api_provider_vcl.Runtime.{Error, Result, ok, err, is_not_found, continue, ◌>>=◌}
use cluster_api_provider_vcl.Runtime.Steady.{IsSteady, bind-IsSteady, elim_result-count}
use cluster_api_provider_vcl.Kube.{World, HelmClient, NamespacedName}
use cluster_api_provider_vcl.Helm.Options.{UpgradeOptions}
use cluster_api_provider_vcl.Helm.Secrets.{Codec}
use cluster_api_provider_vcl.Patching.Options.{
  PatchOption, PatchHelper, with_status_observed_generation,
}
use cluster_api_provider_vcl.Controllers.State.{State, edit}
use cluster_api_provider_vcl.Controllers.Finalizer.{
  cleanup_finalizer, ensure_finalizer, with_finalizers, has_finalizer,
}
use cluster_api_provider_vcl.Controllers.Phase.{reconcile_phase}
use cluster_api_provider_vcl.Controllers.Redeploy.{redeploy_if_needed}
use cluster_api_provider_vcl.Controllers.Kubeconfig.{sync_kubeconfig, check_readyz}
use cluster_api_provider_vcl.Controllers.Reconcile.{
  Reply, patch_cluster, deferred, reply_ready, reply_synced, reply_deployed, reconcile_body,
  reconcile_normal, reconcile_object, reconcile, has_cluster_owner, mark_now,
}
use cluster_api_provider_vcl.Controllers.Reconcile.Spared.{
  OnlyUpgrade, reconcile_delete-IsSteady, update_object-IsSteady,
}
use cluster_api_provider_vcl.Controllers.Steady.{
  WorldKeeps, counted, edit-IsSteady, edit_now-IsSteady,
}
use cluster_api_provider_vcl.Controllers.Steady.Deploy.{redeploy_if_needed-IsSteady}
use cluster_api_provider_vcl.Controllers.Steady.Kubeconfig.{
  sync_kubeconfig-IsSteady, check_readyz-IsSteady,
}

-- The calls of a run, less the upgrade.
pub record Keeps {W R H : Type 0} (k : World W R) (helm : HelmClient W) (helper : PatchHelper W H)
    {C : Type 0} (count : W → C) : Type 0 where
  pub world : WorldKeeps k count
  pub delete : (name namespace : String) → IsSteady count (helm.delete name namespace)
  pub patch :
      (h : H) (options : List PatchOption) → IsSteady (counted count) (helper.patch h options)

module _ {W R H : Type 0} (k : World W R) (helm : HelmClient W) (codec : Codec)
    (helper : PatchHelper W H) {C : Type 0} (count : W → C)
    (keeps : Keeps k helm helper count) where
  pub only_upgrade : OnlyUpgrade k helm count
  only_upgrade = record {
    get_namespace = keeps.world.get_namespace;
    list_secrets = keeps.world.list_secrets;
    delete_volume_claim = keeps.world.delete_volume_claim;
    update = keeps.world.update;
    delete = keeps.delete;
  }

  patch_cluster-IsSteady :
      (h : H) (options : List PatchOption)
      → IsSteady (counted count) (patch_cluster k helm codec helper h options)
  unfolding patch_cluster
  patch_cluster-IsSteady h options =
      bind-IsSteady (counted count) _ _ (edit_now-IsSteady count k.now keeps.world.now _)
        λ _. keeps.patch h _

  pub deferred-IsSteady :
      (h : H) (reply : Reply) (s : State W)
      → counted count (deferred k helm codec helper h reply s).1 ≡ counted count s
  unfolding deferred
  deferred-IsSteady h reply s =
      let options : List PatchOption =
        if not (is_some reply.error) then with_status_observed_generation ∷ [] else [] in
      let m = edit reconcile_phase >>= λ _. patch_cluster k helm codec helper h options in
      let same : counted count (m s).1 ≡ counted count s =
        bind-IsSteady (counted count) _ _ (edit-IsSteady count reconcile_phase)
          (λ _. patch_cluster-IsSteady h options) s in
      elim_result-count (counted count) (m s).0 _ _ (counted count s) (λ _. same) λ e. same

  reply_ready-IsSteady :
      (r : Result Bool) (s : State W)
      → counted count (reply_ready k helm codec helper r s).1 ≡ counted count s
  unfolding reply_ready
  reply_ready-IsSteady r s = refl

  mark_now-IsSteady :
      (t : ConditionType) (reason : String) (severity : ConditionSeverity) (e : Error) (s : State W)
      → counted count (mark_now k helm codec helper t reason severity e s) ≡ counted count s
  unfolding mark_now
  mark_now-IsSteady t reason severity e s = edit_now-IsSteady count k.now keeps.world.now _ s

  reply_synced-IsSteady :
      (r : Result R) (s : State W)
      → counted count (reply_synced k helm codec helper r s).1 ≡ counted count s
  unfolding reply_synced
  reply_synced-IsSteady (err e) s = mark_now-IsSteady _ _ _ e s
  reply_synced-IsSteady (ok config) s =
      let (r, s') = check_readyz k config s in
      reply_ready-IsSteady r s' ∙ check_readyz-IsSteady k count keeps.world config s

  pub reply_deployed-IsSteady :
      (r : Result (Unit {0})) (s : State W)
      → counted count (reply_deployed k helm codec helper r s).1 ≡ counted count s
  unfolding reply_deployed
  reply_deployed-IsSteady (err e) s = mark_now-IsSteady _ _ _ e s
  reply_deployed-IsSteady (ok _) s =
      let (r, s') = sync_kubeconfig k s in
      reply_synced-IsSteady r s' ∙ sync_kubeconfig-IsSteady k count keeps.world s

  pub ensure_finalizer-IsSteady :
      IsSteady (counted count) (ensure_finalizer k.update cleanup_finalizer)
  unfolding ensure_finalizer ◌>>=◌ edit continue
  ensure_finalizer-IsSteady s =
      let fs = s.vcluster.metadata.finalizers in
      elim (Bool-cases (has_finalizer cleanup_finalizer fs)) [
        | inl e ↦ rw e refl
        | inr e ↦ rw e (
            update_object-IsSteady k helm codec helper count only_upgrade
              (record s { vcluster = with_finalizers (fs ++ cleanup_finalizer ∷ []) s.vcluster }))
      ]

  module _
      (upgrade : (name namespace : String) (o : UpgradeOptions)
        → IsSteady count (helm.upgrade name namespace o))
      (default_repo default_name : String) where
    reconcile_body-IsSteady :
        (s : State W)
        → counted count (reconcile_body k helm codec helper default_repo default_name s).1
          ≡ counted count s
    unfolding reconcile_body
    reconcile_body-IsSteady s =
        let (r, s') = redeploy_if_needed k helm default_repo default_name s in
        reply_deployed-IsSteady r s'
        ∙ redeploy_if_needed-IsSteady k helm count keeps.world upgrade default_repo default_name s

    reconcile_normal-IsSteady :
        (s : State W)
        → counted count (reconcile_normal k helm codec helper default_repo default_name s).1
          ≡ counted count s
    unfolding reconcile_normal
    reconcile_normal-IsSteady s =
        let (r, s1) = ensure_finalizer k.update cleanup_finalizer s in
        let same = ensure_finalizer-IsSteady s in
        elim_result-count (counted count) r _ _ (counted count s)
          (λ _.
            elim_result-count (counted count) (helper.new_helper s1.vcluster) _ _ (counted count s)
              (λ h.
                let (reply, s2) = reconcile_body k helm codec helper default_repo default_name s1 in
                deferred-IsSteady h reply s2 ∙ reconcile_body-IsSteady s1 ∙ same)
              λ e. same)
          λ e. same

    reconcile_object-IsSteady :
        (there : Bool) (req : NamespacedName) (s : State W)
        → counted count
            (reconcile_object k helm codec helper default_repo default_name there req s).1
          ≡ counted count s
    unfolding reconcile_object
    reconcile_object-IsSteady there req s =
        elim (Bool-cases (is_some s.vcluster.metadata.deletion_timestamp)) [
          | inl e ↦ rw e (reconcile_delete-IsSteady k helm codec helper count only_upgrade req s)
          | inr e ↦
              elim (Bool-cases
                (there && not (has_cluster_owner s.vcluster.metadata.owner_references))) [
                  | inl f ↦ rw (e, f) refl
                  | inr f ↦ rw (e, f) (reconcile_normal-IsSteady s)
                ]
        ]

    -- A run of `Reconcile` leaves a number that each of its calls leaves.
    pub reconcile-IsSteady :
        (there : Bool) (req : NamespacedName) (w : W)
        → count (reconcile k helm codec helper default_repo default_name there req w).1 ≡ count w
    unfolding reconcile
    reconcile-IsSteady there req w =
        let (r, w1) = k.get_vcluster req w in
        let same = keeps.world.get_vcluster req w in
        elim_result-count count r _ _ (count w)
          (λ v. reconcile_object-IsSteady there req (record { world = w1; vcluster = v }) ∙ same)
          λ e. elim (Bool-cases (not (is_not_found e))) [ inl h ↦ rw h same | inr h ↦ rw h same ]
