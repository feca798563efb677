-- ===== src/Controllers/Phase.antt =====
-- `reconcilePhase`.
pub mod Laws
use cluster_api_provider_vcl.Base.{String, Bool, not, ◌&&◌, Option, none, some, List, [], ◌∷◌, ◌==◌}
use cluster_api_provider_vcl.Base.Tests.{if◌then◌else◌}
use cluster_api_provider_vcl.Api.Condition.{
  Condition, Conditions, condition_false, severity_error, control_plane_initialized_condition,
}
use cluster_api_provider_vcl.Api.VCluster.{
  VCluster, virtual_cluster_pending, virtual_cluster_deployed, virtual_cluster_failed,
}
use cluster_api_provider_vcl.Controllers.State.{condition_is_true}

-- The loop, up to its `break`: the first condition that is an error.
unfoldable pub first_error : Conditions → Option Condition
first_error [] = none
first_error (c ∷ cs) =
    if c.status == condition_false && c.severity == severity_error then some c else first_error cs

unfoldable pub reconcile_phase : VCluster → VCluster
unfolding first_error condition_is_true
reconcile_phase v =
    let pending =
      if not (v.status.phase == virtual_cluster_pending)
      then virtual_cluster_pending
      else v.status.phase in
    let phase =
      if v.status.ready && condition_is_true v control_plane_initialized_condition
      then virtual_cluster_deployed
      else pending in
    elim (first_error v.status.conditions) [
      | none ↦ record v { status = record (v.status) { phase = phase; reason = ""; message = "" } }
      | some c ↦ record v {
        status = record (v.status) {
          phase = virtual_cluster_failed;
          reason = c.reason;
          message = c.message;
        };
      }
    ]
