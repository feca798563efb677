-- ===== src/Controllers/Reconcile.antt =====
-- `Reconcile` and `patchCluster`.
pub mod Laws
pub mod Deletion
pub mod Resources
pub mod Spared
pub mod Ready
pub mod Converges
pub mod Survives
pub mod Frame
pub mod Persists
use Prim.Native.String.{◌++◌ as append}
use cluster_api_provider_vcl.Base.{
  ℕ, String, Bool, true, false, not, ◌&&◌, Option, none, some, List, [], ◌∷◌, ◌++◌, ◌==◌,
}
use cluster_api_provider_vcl.Base.Tests.{if◌then◌else◌, is_some}
use cluster_api_provider_vcl.Base.Lists.{exists}
use cluster_api_provider_vcl.Api.Condition.{
  ConditionType, ConditionSeverity, Time, ready_condition, kubeconfig_ready_condition,
  control_plane_initialized_condition, helm_chart_deployed_condition, severity_error,
  severity_warning,
}
use cluster_api_provider_vcl.Api.VCluster.{VCluster}
use cluster_api_provider_vcl.Runtime.{
  Error, Reason, Result, ok, err, Exec, errorf, is_not_found, pure, raise, lift, attempt, gets,
  ◌>>=◌, ◌>>◌,
}
use cluster_api_provider_vcl.Kube.{World, HelmClient, Namespace, NamespacedName}
use cluster_api_provider_vcl.Helm.Secrets.{Codec}
use cluster_api_provider_vcl.Conditions.Setter.{mark_false}
use cluster_api_provider_vcl.Conditions.Merge.{MergeOption, with_conditions}
use cluster_api_provider_vcl.Conditions.Summary.{set_summary}
use cluster_api_provider_vcl.Patching.Options.{
  PatchOption, PatchHelper, with_status_observed_generation, with_owned_conditions,
}
use cluster_api_provider_vcl.Controllers.State.{State, vcluster_setter, on_world, edit, edit_now}
use cluster_api_provider_vcl.Controllers.Chart.{delete_helm_chart}
use cluster_api_provider_vcl.Controllers.Finalizer.{
  cleanup_finalizer, remove_finalizer, ensure_finalizer,
}
use cluster_api_provider_vcl.Controllers.Phase.{reconcile_phase}
use cluster_api_provider_vcl.Controllers.Redeploy.{redeploy_if_needed}
use cluster_api_provider_vcl.Controllers.Kubeconfig.{sync_kubeconfig, check_readyz}

-- What `Reconcile` returns: the seconds of `RequeueAfter`, 0 for the zero value, and the error.
pub record Reply : Type 0 where
  pub requeue_after : ℕ
  pub error : Option Error

abbrev pub done : Reply
done = record { requeue_after = 0; error = none }

abbrev pub failed : Error → Reply
failed e = record { requeue_after = 0; error = some e }

-- `ctrl.Result{}, m`
unfoldable pub returning {ℓ} : {S A : Type ℓ} → Exec S A → S → Reply × S
returning m s = let (r, s') = m s in elim r [ ok _ ↦ (done, s') | err e ↦ (failed e, s') ]

-- The errors that `NewAggregate` gets, less the nil ones.
unfoldable pub errors_of : Option Error → Error → List Error
errors_of none e = e ∷ []
errors_of (some f) e = f ∷ e ∷ []

abbrev pub summary_options : List MergeOption
summary_options =
    with_conditions (some (kubeconfig_ready_condition ∷ control_plane_initialized_condition ∷ []))
    ∷ []

abbrev pub patch_options : List PatchOption
patch_options =
    with_owned_conditions (
      ready_condition ∷ kubeconfig_ready_condition ∷ control_plane_initialized_condition
      ∷ helm_chart_deployed_condition ∷ [])
    ∷ []

-- The owner references, by their kind.
unfoldable pub has_cluster_owner : List String → Bool
unfolding exists
has_cluster_owner owners = exists (λ kind. kind == "Cluster") owners

abbrev pub volume_claim : String → String → NamespacedName
volume_claim namespace name = record {
  namespace = namespace;
  name = append "data-" (append name "-0");
}

abbrev pub set_ready : Bool → VCluster → VCluster
set_ready b v = record v { status = record (v.status) { ready = b } }

module _ {W R H : Type 0} (k : World W R) (helm : HelmClient W) (codec : Codec)
    (helper : PatchHelper W H) where
  unfoldable pub patch_cluster : H → List PatchOption → Exec (State W) (Unit {0})
  patch_cluster h options = do
    edit_now k.now (λ t o. set_summary t o summary_options)
    helper.patch h (options ++ patch_options)

  -- The deferred function, by the reply that the body has set.
  unfoldable pub deferred : H → Reply → State W → Reply × State W
  deferred h reply s =
      let options : List PatchOption =
        if not (is_some reply.error) then with_status_observed_generation ∷ [] else [] in
      let (r, s') = (do edit reconcile_phase; patch_cluster h options) s in
      elim r [
        | ok _ ↦ (reply, s')
        | err e ↦ (record reply { error = some (k.new_aggregate (errors_of reply.error e)) }, s')
      ]

  -- The finalizer goes, with the object as it is.
  unfoldable pub release : State W → Reply × State W
  release s = returning (remove_finalizer k.update cleanup_finalizer) s

  unfoldable pub ignore_not_found : Result (Unit {0}) → Result (Unit {0})
  ignore_not_found (ok _) = ok tt
  ignore_not_found (err e) = if not (is_not_found e) then err e else ok tt

  -- The helm release and then the persistent volume claim.
  unfoldable pub delete_resources : NamespacedName → (name : String) → Exec W (Unit {0})
  unfolding ignore_not_found
  delete_resources req name = do
    delete_helm_chart k helm codec req.namespace req.name
    claim ← attempt (k.delete_volume_claim (volume_claim req.namespace name))
    lift (ignore_not_found claim)

  unfoldable pub reply_deleted : Result (Unit {0}) → State W → Reply × State W
  unfolding release
  reply_deleted (ok _) s = release s
  reply_deleted (err e) s = (failed e, s)

  unfoldable pub reply_namespace : NamespacedName → Result Namespace → State W → Reply × State W
  unfolding release delete_resources reply_deleted
  reply_namespace req (err e) s = (done, s)
  reply_namespace req (ok namespace) s =
      if is_some namespace.deletion_timestamp
      then release s
      else (let (r, s') = on_world (delete_resources req s.vcluster.metadata.name) s in
          reply_deleted r s')

  -- The branch of an object that is being deleted.
  unfoldable pub reconcile_delete : NamespacedName → State W → Reply × State W
  unfolding reply_namespace
  reconcile_delete req s =
      let (r, s') = on_world (k.get_namespace req.namespace) s in reply_namespace req r s'

  -- `MarkFalse` with the error as its message.
  unfoldable pub mark_now : ConditionType → String → ConditionSeverity → Error → State W → State W
  mark_now t reason severity e s =
      let (r, s') = edit_now k.now (λ now o. mark_false now o t reason severity e.message) s in s'

  -- The answer of the readiness check is written into the status, `false` with an error.
  unfoldable pub reply_ready : Result Bool → State W → Reply × State W
  reply_ready r s =
      let ready : Bool = elim r [ ok b ↦ b | err e ↦ false ] in
      (
        record { requeue_after = if not ready then 5 else 60; error = none },
        record s { vcluster = set_ready ready s.vcluster },
      )

  unfoldable pub reply_synced : Result R → State W → Reply × State W
  unfolding reply_ready
  reply_synced (err e) s = (
    record { requeue_after = 5; error = none },
    mark_now kubeconfig_ready_condition "CheckFailed" severity_warning e s,
  )
  reply_synced (ok config) s = let (r, s') = check_readyz k config s in reply_ready r s'

  unfoldable pub reply_deployed : Result (Unit {0}) → State W → Reply × State W
  unfolding reply_synced
  reply_deployed (err e) s = (
    record { requeue_after = 5; error = some e },
    mark_now helm_chart_deployed_condition "HelmDeployFailed" severity_error e s,
  )
  reply_deployed (ok _) s = let (r, s') = sync_kubeconfig k s in reply_synced r s'

  module _ (default_repo default_name : String) where
    -- The body between the helper and the deferred function: each step with what follows it.
    unfoldable pub reconcile_body : State W → Reply × State W
    unfolding reply_deployed
    reconcile_body s =
        let (r, s') = redeploy_if_needed k helm default_repo default_name s in reply_deployed r s'

    -- An object that is not being deleted.
    unfoldable pub reconcile_normal : State W → Reply × State W
    reconcile_normal s =
        let (r, s1) = ensure_finalizer k.update cleanup_finalizer s in
        elim r [
          | err e ↦ (failed e, s1)
          | ok _ ↦ elim (helper.new_helper s1.vcluster) [
            | err e ↦ (failed e, s1)
            | ok h ↦ let (reply, s2) = reconcile_body s1 in deferred h reply s2
          ]
        ]

    -- `Reconcile`, once the object is read.
    unfoldable pub reconcile_object :
        (cluster_kind_exists : Bool) → NamespacedName → State W → Reply × State W
    reconcile_object cluster_kind_exists req s =
        if is_some s.vcluster.metadata.deletion_timestamp
        then reconcile_delete req s
        else if cluster_kind_exists && not (has_cluster_owner s.vcluster.metadata.owner_references)
        then (done, s)
        else reconcile_normal s

    unfoldable pub reconcile : (cluster_kind_exists : Bool) → NamespacedName → W → Reply × W
    reconcile cluster_kind_exists req w =
        let (r, w1) = k.get_vcluster req w in
        elim r [
          | err e ↦ if not (is_not_found e) then (failed e, w1) else (done, w1)
          | ok v ↦
              let (reply, s) =
                reconcile_object cluster_kind_exists req (record { world = w1; vcluster = v }) in
              (reply, s.world)
        ]
