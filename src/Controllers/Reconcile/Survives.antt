-- ===== src/Controllers/Reconcile/Survives.antt =====
-- Properties of the object that every write of the reconciler keeps.
pub mod Steps
use cluster_api_provider_vcl.Base.{◌≡◌, refl, String, Bool, true, [], ◌∷◌, ◌==◌}
use cluster_api_provider_vcl.Base.Lists.{exists}
use cluster_api_provider_vcl.Api.Condition.{
  ConditionType, Time, control_plane_initialized_condition, kubeconfig_ready_condition,
  helm_chart_deployed_condition, severity_error, severity_warning,
}
use cluster_api_provider_vcl.Api.VCluster.{VCluster}
use cluster_api_provider_vcl.Runtime.{Exec}
use cluster_api_provider_vcl.Conditions.Setter.{mark_true, mark_false, delete_condition}
use cluster_api_provider_vcl.Controllers.State.{State, vcluster_setter}
use cluster_api_provider_vcl.Controllers.Ensures.{Ensures}
use cluster_api_provider_vcl.Controllers.Kubeconfig.{set_initialized}
use cluster_api_provider_vcl.Controllers.Host.{write_host}
use cluster_api_provider_vcl.Controllers.Reconcile.{set_ready}

-- The types that the reconciler writes before its deferred function.
unfoldable pub writes : ConditionType → Bool
unfolding exists
writes t =
    exists (λ u. u == t)
      (kubeconfig_ready_condition ∷ control_plane_initialized_condition
        ∷ helm_chart_deployed_condition ∷ [])

pub kubeconfig_written : writes kubeconfig_ready_condition ≡ true
unfolding writes exists
kubeconfig_written = refl

pub control_plane_written : writes control_plane_initialized_condition ≡ true
unfolding writes exists
control_plane_written = refl

pub chart_written : writes helm_chart_deployed_condition ≡ true
unfolding writes exists
chart_written = refl

-- The writes of the body.
pub record Survives (P : VCluster → Type 0) : Type 0 where
  pub marked :
      (now : Time) (v : VCluster) (t : ConditionType)
      → writes t ≡ true
      → P v
      → P (mark_true now v t)
  pub failed :
      (now : Time) (v : VCluster) (message : String)
      → P v
      → P (mark_false now v helm_chart_deployed_condition "HelmDeployFailed" severity_error message)
  pub unchecked :
      (now : Time) (v : VCluster) (message : String)
      → P v
      → P (mark_false now v kubeconfig_ready_condition "CheckFailed" severity_warning message)
  pub deleted : (v : VCluster) → P v → P (delete_condition v kubeconfig_ready_condition)
  pub initialized : (v : VCluster) → P v → P (set_initialized v)
  pub hosted : (host : String) (v : VCluster) → P v → P (write_host host v)
  pub ready : (b : Bool) (v : VCluster) → P v → P (set_ready b v)

-- A step that keeps the property, whether it succeeds or fails.
abbrev pub Maintains : {W A : Type 0} → (VCluster → Type 0) → Exec (State W) A → Type 0
Maintains P m = Ensures P m (λ _. P) P
