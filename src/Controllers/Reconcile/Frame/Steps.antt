-- ===== src/Controllers/Reconcile/Frame/Steps.antt =====
-- The body of a reconciliation leaves the conditions of other types alone.
use cluster_api_provider_vcl.Base.{refl, String}
use cluster_api_provider_vcl.Api.Condition.{
  kubeconfig_ready_condition, helm_chart_deployed_condition, severity_error, severity_warning,
}
use cluster_api_provider_vcl.Api.VCluster.{VCluster}
use cluster_api_provider_vcl.Kube.{World, HelmClient}
use cluster_api_provider_vcl.Helm.Secrets.{Codec}
use cluster_api_provider_vcl.Patching.Options.{PatchHelper}
use cluster_api_provider_vcl.Controllers.State.{State, vcluster_setter}
use cluster_api_provider_vcl.Controllers.Writes.{HasDistinct}
use cluster_api_provider_vcl.Controllers.Reconcile.{reconcile_body}
use cluster_api_provider_vcl.Controllers.Reconcile.Survives.{
  Survives, kubeconfig_written, chart_written,
}
use cluster_api_provider_vcl.Controllers.Reconcile.Survives.Steps.{reconcile_body-keeps}
use cluster_api_provider_vcl.Controllers.Reconcile.Frame.{
  Framed, mark_true-Framed, mark_false-Framed, delete_condition-Framed, set_initialized-Framed,
  write_host-Framed, set_ready-Framed,
}

Framed-Survives : (v : VCluster) → Survives (Framed v)
Framed-Survives v = record {
  marked = mark_true-Framed v;
  failed = λ now u message.
      mark_false-Framed v now u helm_chart_deployed_condition "HelmDeployFailed" severity_error
        message chart_written;
  unchecked = λ now u message.
      mark_false-Framed v now u kubeconfig_ready_condition "CheckFailed" severity_warning message
        kubeconfig_written;
  deleted = λ u. delete_condition-Framed v u kubeconfig_ready_condition kubeconfig_written;
  initialized = set_initialized-Framed v;
  hosted = write_host-Framed v;
  ready = set_ready-Framed v;
}

module _ {W R H : Type 0} (k : World W R) (helm : HelmClient W) (codec : Codec)
    (helper : PatchHelper W H) (default_repo default_name : String) where
  -- The body of `Reconcile` on an object with at most one condition of each type leaves every
  -- condition of a type other than KubeconfigReady, ControlPlaneInitialized and
  -- HelmChartDeployed as it was, its time included, however the body ends.
  pub reconcile_body-Framed :
      (s : State W)
      → HasDistinct s.vcluster
      → Framed s.vcluster
          (reconcile_body k helm codec helper default_repo default_name s).1.vcluster
  unfolding reconcile_body
  reconcile_body-Framed s d =
      let start : Framed s.vcluster s.vcluster = record { distinct = d; frame = λ t n. refl } in
      reconcile_body-keeps k helm codec helper (Framed s.vcluster) (Framed-Survives s.vcluster)
        default_repo default_name s start
