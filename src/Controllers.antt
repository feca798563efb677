-- ===== src/Controllers.antt =====
-- controllers/vcluster_controller.go: the reconciler of VCluster objects.
pub mod State
pub mod Writes
pub mod Ensures
pub mod Finalizer
pub mod Phase
pub mod Redeploy
pub mod Host
pub mod Kubeconfig
pub mod Chart
pub mod Reconcile
pub mod Steady
pub mod Lifecycle
pub mod Live
pub mod Setup
