-- ===== src/Tests/OfControllers.antt =====
-- The theorems on the reconciler and on helm's releases, on concrete objects, and a run.
use cluster_api_provider_vcl.Base.{ℕ, suc, ◌≡◌, refl, true, false, [], ◌∷◌, ◌++◌}
use cluster_api_provider_vcl.Base.Tests.{if◌then◌else◌}
use cluster_api_provider_vcl.Base.Lists.{exists}
use cluster_api_provider_vcl.Api.VCluster.{VCluster}
use cluster_api_provider_vcl.Runtime.{Exec, ok}
use cluster_api_provider_vcl.Conditions.Getter.{find, is_true, get}
use cluster_api_provider_vcl.Conditions.Summary.{set_summary}
use cluster_api_provider_vcl.Controllers.State.{vcluster_setter, vcluster_getter, condition_is_true}
use cluster_api_provider_vcl.Controllers.Ensures.{Leaves}
use cluster_api_provider_vcl.Controllers.Finalizer.{
  has_finalizer, remove_finalizer, ensure_finalizer,
}
use cluster_api_provider_vcl.Controllers.Finalizer.Laws.{
  sent, sent_once, remove_finalizer-ensure_finalizer,
}
use cluster_api_provider_vcl.Controllers.Phase.{reconcile_phase}
use cluster_api_provider_vcl.Controllers.Phase.Laws.{
  Verdict as PhaseVerdict, reconcile_phase-Verdict, is_error,
}
use cluster_api_provider_vcl.Controllers.Redeploy.{redeploy_if_needed}
use cluster_api_provider_vcl.Controllers.Redeploy.Laws.{Outcome, redeploy_if_needed-Outcome}
use cluster_api_provider_vcl.Controllers.Kubeconfig.{sync_kubeconfig, ensure_host}
use cluster_api_provider_vcl.Controllers.Kubeconfig.Endpoint.{Endpoint, ensure_host-Endpoint}
use cluster_api_provider_vcl.Controllers.Kubeconfig.Progress.{Sound, Synced, sync_kubeconfig-Synced}
use cluster_api_provider_vcl.Controllers.Reconcile.{
  reconcile_body, reconcile_delete, summary_options,
}
use cluster_api_provider_vcl.Controllers.Reconcile.Laws.{Verdict, reconcile_body-Verdict}
use cluster_api_provider_vcl.Controllers.Reconcile.Frame.{Framed}
use cluster_api_provider_vcl.Controllers.Reconcile.Frame.Steps.{reconcile_body-Framed}
use cluster_api_provider_vcl.Controllers.Reconcile.Deletion.{Deletion, reconcile_delete-Deletion}
use cluster_api_provider_vcl.Controllers.Reconcile.Ready.{set_summary-reconcile_phase}
use cluster_api_provider_vcl.Tests.Fixtures.{
  kubeconfig_true, control_plane_true, chart_true, chart_failed, vcluster_with, test_world,
  test_helm, test_codec, test_helper, start,
}
use cluster_api_provider_vcl.Tests.OfConditions.{two_conditions-Distinct}

reconcile_body-Verdict_example :
    Verdict
      (reconcile_body test_world test_helm test_codec test_helper "https://charts" "vcluster" start)
reconcile_body-Verdict_example =
    reconcile_body-Verdict test_world test_helm test_codec test_helper "https://charts" "vcluster"
      start two_conditions-Distinct

abbrev running_vcluster : VCluster
running_vcluster =
    let v = vcluster_with [] (chart_true ∷ control_plane_true ∷ kubeconfig_true ∷ []) in
    record v { status = record (v.status) { ready = true; initialized = true } }

running-Synced : Synced true running_vcluster
unfolding find condition_is_true is_true get vcluster_getter
running-Synced = record {
  initialized = record {
    checked = record {
      sound = record { distinct = (refl, (refl, (refl, tt))); chart = refl };
      control_plane = refl;
    };
    initialized = refl;
  };
  kubeconfig = refl;
}

set_summary-reconcile_phase_example :
    (condition_is_true (set_summary 5 (reconcile_phase running_vcluster) summary_options) "Ready"
      ≡ true)
    × ((set_summary 5 (reconcile_phase running_vcluster) summary_options).status.phase
        ≡ (if exists is_error running_vcluster.status.conditions then "Failed" else "Deployed"))
set_summary-reconcile_phase_example =
    set_summary-reconcile_phase 5 running_vcluster running-Synced refl

reconcile_delete-Deletion_example :
    Deletion test_world test_helm test_codec test_helper
      (record { namespace = "b"; name = "a" })
      start
      (reconcile_delete test_world test_helm test_codec test_helper
        (record { namespace = "b"; name = "a" })
        start)
reconcile_delete-Deletion_example =
    reconcile_delete-Deletion test_world test_helm test_codec test_helper
      (record { namespace = "b"; name = "a" }) start

start-Sound : Sound false start.vcluster
unfolding find condition_is_true is_true get vcluster_getter
start-Sound = record { distinct = two_conditions-Distinct; chart = refl }

sync_kubeconfig-Synced_example :
    Leaves (λ _. Synced false) (Sound false) (sync_kubeconfig test_world start)
sync_kubeconfig-Synced_example = sync_kubeconfig-Synced test_world false start start-Sound

redeploy_if_needed-Outcome_example :
    Outcome start (redeploy_if_needed test_world test_helm "https://charts" "vcluster" start)
redeploy_if_needed-Outcome_example =
    redeploy_if_needed-Outcome test_world test_helm "https://charts" "vcluster" start
      two_conditions-Distinct

reconcile_phase-Verdict_example :
    PhaseVerdict
      (vcluster_with [] (chart_failed ∷ []))
      (reconcile_phase (vcluster_with [] (chart_failed ∷ [])))
reconcile_phase-Verdict_example = reconcile_phase-Verdict (vcluster_with [] (chart_failed ∷ []))

cleanup_absent : has_finalizer "vcluster.loft.sh/cleanup" start.vcluster.metadata.finalizers ≡ false
unfolding has_finalizer exists
cleanup_absent = refl

-- A server that counts the updates.
abbrev counting_update : VCluster → Exec ℕ VCluster
counting_update v n = (ok v, suc n)

remove_finalizer-ensure_finalizer_example :
    (ensure_finalizer counting_update "vcluster.loft.sh/cleanup" start ≡ (
      ok tt,
      sent_once counting_update (
          sent counting_update start
            (start.vcluster.metadata.finalizers ++ "vcluster.loft.sh/cleanup" ∷ [])),
    ))
    × (remove_finalizer counting_update "vcluster.loft.sh/cleanup"
          (ensure_finalizer counting_update "vcluster.loft.sh/cleanup" start).1
        ≡ (
          ok tt,
          sent_once counting_update (record {
            world = (ensure_finalizer counting_update "vcluster.loft.sh/cleanup" start).1.world;
            vcluster = start.vcluster;
          }),
        ))
remove_finalizer-ensure_finalizer_example =
    remove_finalizer-ensure_finalizer counting_update "vcluster.loft.sh/cleanup" start
      (λ v w e. refl) cleanup_absent

ensure_host-Endpoint_example :
    Leaves (Endpoint start.vcluster) (λ u. u ≡ start.vcluster) (ensure_host test_world start)
ensure_host-Endpoint_example = ensure_host-Endpoint test_world start

reconcile_body-Framed_example :
    Framed start.vcluster
      (reconcile_body test_world test_helm test_codec test_helper "https://charts" "vcluster"
        start).1.vcluster
reconcile_body-Framed_example =
    reconcile_body-Framed test_world test_helm test_codec test_helper "https://charts" "vcluster"
      start two_conditions-Distinct
