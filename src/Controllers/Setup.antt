-- ===== src/Controllers/Setup.antt =====
-- The fields of `VClusterReconciler`, and `SetupWithManager`, which registers it.
use cluster_api_provider_vcl.Base.{String, Bool, List}
use cluster_api_provider_vcl.Base.{false, ◌==◌}
use cluster_api_provider_vcl.Base.Tests.{if◌then◌else◌}
use cluster_api_provider_vcl.Base.Lists.{exists}
use cluster_api_provider_vcl.Runtime.{
  Result, err, is_not_found, ok, Exec, attempt, lift, ◌>>=◌, ◌>>◌,
}
use cluster_api_provider_vcl.Kube.{HelmClient}
use cluster_api_provider_vcl.Kube.Config.{RestConfig}
use cluster_api_provider_vcl.Helm.Secrets.Clients.{KubeClient, Secrets}

pub record VClusterReconciler (W : Type 0) : Type 0 where
  pub client : KubeClient W
  pub helm_client : HelmClient W
  pub helm_secrets : Secrets W
  pub cluster_kind_exists : Bool

-- The calls of controller-runtime and of the discovery client.
pub record Registration (W : Type 0) : Type 0 where
  pub new_discovery_client : RestConfig → Exec W (Unit {0})
  -- the kinds of a group and version
  pub server_resources : (group_version : String) → Exec W (List String)
  -- `NewControllerManagedBy(mgr).For(&VCluster{}).Complete(r)`
  pub complete : VClusterReconciler W → Exec W (Unit {0})

-- `kindExists`, by the answers of the discovery client: the kinds of the group and version.
unfoldable pub kind_exists : Result (Unit {0}) → Result (List String) → String → Result Bool
unfolding exists
kind_exists (err e) resources kind = err e
kind_exists (ok _) (err e) kind = if is_not_found e then ok false else err e
kind_exists (ok _) (ok kinds) kind = ok (exists (λ r. r == kind) kinds)

module _ {W : Type 0} (m : Registration W) where
  -- `kindExists` of the kind of a cluster.
  unfoldable pub cluster_kind : RestConfig → Exec W Bool
  unfolding kind_exists
  cluster_kind config = do
    m.new_discovery_client config
    kinds ← attempt (m.server_resources "cluster.x-k8s.io/v1beta1")
    lift (kind_exists (ok tt) kinds "Cluster")

  unfoldable pub setup_with_manager : RestConfig → VClusterReconciler W → Exec W (Unit {0})
  unfolding cluster_kind
  setup_with_manager config r = do
    there ← cluster_kind config
    m.complete (record r { cluster_kind_exists = there })
