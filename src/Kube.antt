-- ===== src/Kube.antt =====
-- The objects of the Kubernetes API that the controller reads, and the world that it acts on.
-- Neither is code of the repository: the world is a type with the calls that the code makes.
pub mod Config
use cluster_api_provider_vcl.Base.{ℕ, String, Bool, Option, List}
use cluster_api_provider_vcl.Api.Condition.{Time}
use cluster_api_provider_vcl.Api.VCluster.{VCluster}
use cluster_api_provider_vcl.Runtime.{Error, Result, Exec}
use cluster_api_provider_vcl.Helm.Options.{UpgradeOptions}
use cluster_api_provider_vcl.Kube.Config.{KubeConfig}

pub record NamespacedName : Type 0 where
  pub namespace : String
  pub name : String

pub record Namespace : Type 0 where
  pub deletion_timestamp : Option Time

pub record Ingress : Type 0 where
  pub hostname : String
  pub ip : String

pub record Service : Type 0 where
  pub type : String
  pub ingress : List Ingress

-- The data of a secret and its labels; no value of either is nil.
pub record Secret : Type 0 where
  pub name : String
  pub namespace : String
  pub labels : List (String × String)
  pub data_entries : List (String × String)

-- A secret with the entry that is written into its data.
pub record SecretWrite : Type 0 where
  pub target : NamespacedName
  pub labels : List (String × String)
  pub type : String
  pub key : String
  pub value : String

pub record Credentials : Type 0 where
  pub client_cert : String
  pub client_key : String

-- A client of HTTP with its timeout in seconds. The round tripper stands for itself by the rest
-- config that it is made of.
pub record HttpClient (R : Type 0) : Type 0 where
  pub timeout : ℕ
  pub transport : R

-- The world of one process: the API server, the virtual cluster, the disk and the clock. A call
-- may change the world, and two equal calls may have different answers.
pub record World (W R : Type 0) : Type 0 where
  pub now : W → Time × W
  pub get_vcluster : NamespacedName → Exec W VCluster
  pub get_namespace : String → Exec W Namespace
  pub get_service : NamespacedName → Exec W Service
  pub get_secret : NamespacedName → Exec W Secret
  pub list_secrets : List (String × String) → String → Exec W (List Secret)
  pub delete_volume_claim : NamespacedName → Exec W (Unit {0})
  -- `Update` writes the answer of the server into the object.
  pub update : VCluster → Exec W VCluster
  -- `CreateOrPatch` with a function that writes one entry of the data
  pub create_or_patch_secret : SecretWrite → Exec W (Unit {0})
  pub stat : String → Exec W (Unit {0})
  -- `clientcmd.Load` and `clientcmd.Write`
  pub load_config : String → Result KubeConfig
  pub write_config : KubeConfig → Result String
  -- `ClientConfig()`, `NewForConfig` and `TransportFor` on a rest config
  pub client_config : KubeConfig → Result R
  pub new_for_config : R → Exec W (Unit {0})
  pub get_service_account : R → Exec W (Unit {0})
  pub transport_for : R → Result (Unit {0})
  -- the GET of a client, and the body of its answer
  pub http_get : HttpClient R → String → Exec W (Exec W String)
  -- `utilerrors.NewAggregate` on errors that are not nil
  pub new_aggregate : List Error → Error
  -- how often a poll every 2 seconds tries within 10 seconds
  pub poll_rounds : ℕ

-- The helm client: the interface `Client` of pkg/helm/helm.go.
pub record HelmClient (W : Type 0) : Type 0 where
  pub install : (name namespace : String) → UpgradeOptions → Exec W (Unit {0})
  pub upgrade : (name namespace : String) → UpgradeOptions → Exec W (Unit {0})
  pub rollback : (name namespace revision : String) → Exec W (Unit {0})
  pub delete : (name namespace : String) → Exec W (Unit {0})
  pub exists : (name namespace : String) → Exec W Bool
