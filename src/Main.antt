-- ===== src/Main.antt =====
-- main.go: the flags, and the start of the manager. An error is the exit with status 1 that
-- follows on its log line; nothing is called after it.
pub mod Started
use cluster_api_provider_vcl.Base.{ℕ, String, Bool, false, not, List, [], ◌∷◌, ◌==◌}
use cluster_api_provider_vcl.Base.Tests.{if◌then◌else◌}
use cluster_api_provider_vcl.Runtime.{Result, Exec, lift, ◌>>=◌, ◌>>◌}
use cluster_api_provider_vcl.Kube.{HelmClient}
use cluster_api_provider_vcl.Kube.Config.{KubeConfig, RestConfig}
use cluster_api_provider_vcl.KubeConfigHelper.{convert_to_raw_config}
use cluster_api_provider_vcl.Helm.Client.{System, new_client, methods_of}
use cluster_api_provider_vcl.Helm.Secrets.Clients.{KubeClient, new_secrets}
use cluster_api_provider_vcl.Controllers.Setup.{
  VClusterReconciler, Registration, setup_with_manager,
}

pub record Flags : Type 0 where
  pub metrics_bind_address : String
  pub health_probe_bind_address : String
  pub leader_elect : Bool
  pub namespace : String

abbrev pub default_flags : Flags
default_flags = record {
  metrics_bind_address = ":8080";
  health_probe_bind_address = ":8081";
  leader_elect = false;
  namespace = "";
}

pub record ManagerOptions : Type 0 where
  pub metrics_bind_address : String
  pub webhook_port : ℕ
  pub health_probe_bind_address : String
  pub leader_election : Bool
  pub leader_election_id : String
  -- the keys of a map that is nil if there are none
  pub default_namespaces : List String

unfoldable pub namespaces_of : (namespace : String) → List String
namespaces_of namespace = if not (namespace == "") then namespace ∷ [] else []

unfoldable pub manager_options : Flags → ManagerOptions
unfolding namespaces_of
manager_options f = record {
  metrics_bind_address = f.metrics_bind_address;
  webhook_port = 9443;
  health_probe_bind_address = f.health_probe_bind_address;
  leader_election = f.leader_elect;
  leader_election_id = "4012c7fa.cluster.x-k8s.io";
  default_namespaces = namespaces_of f.namespace;
}

-- The calls of the libraries. `parse` is that of the flag package, on the values that the flags
-- have if they are not given.
pub record Libraries (W : Type 0) : Type 0 where
  pub parse : Flags → List String → Flags
  pub get_config : Exec W RestConfig
  -- `manager.New`, with the configuration and the client of the manager
  pub new_manager : RestConfig → ManagerOptions → Exec W (RestConfig × KubeClient W)
  pub raw_config : KubeConfig → Result KubeConfig
  pub write_config : KubeConfig → Result String
  pub new_logger : Exec W (Unit {0})
  pub registration : Registration W
  pub add_healthz_check : (name : String) → Exec W (Unit {0})
  pub add_readyz_check : (name : String) → Exec W (Unit {0})
  pub start : Exec W (Unit {0})

module _ {W : Type 0} (m : Libraries W) (system : System W) where
  unfoldable pub reconciler_of : KubeClient W → KubeConfig → VClusterReconciler W
  unfolding new_client methods_of
  reconciler_of client raw_config = record {
    client = client;
    helm_client = methods_of system m.write_config (new_client raw_config);
    helm_secrets = new_secrets client;
    cluster_kind_exists = false;
  }

  unfoldable pub main : List String → Exec W (Unit {0})
  unfolding manager_options convert_to_raw_config reconciler_of setup_with_manager
  main args = do
    config ← m.get_config
    manager ← m.new_manager config (manager_options (m.parse default_flags args))
    raw_config ← lift (convert_to_raw_config m.raw_config manager.0)
    m.new_logger
    setup_with_manager m.registration manager.0 (reconciler_of manager.1 raw_config)
    m.add_healthz_check "healthz"
    m.add_readyz_check "readyz"
    m.start
