-- ===== src/Api/VCluster.antt =====
-- api/v1alpha1/vcluster_types.go, with the fields of the object's metadata that the code reads.
use cluster_api_provider_vcl.Base.{ℕ, String, Bool, Option, List}
use cluster_api_provider_vcl.Api.Condition.{Time, Conditions}

-- `clusterv1beta1.APIEndpoint`; the port of the code is an int32.
pub record ApiEndpoint : Type 0 where
  pub host : String
  pub port : ℕ

pub record VirtualClusterHelmChart : Type 0 where
  pub name : String
  pub repo : String
  pub version : String

pub record VirtualClusterHelmRelease : Type 0 where
  pub chart : VirtualClusterHelmChart
  pub values : String

pub record VClusterSpec : Type 0 where
  pub control_plane_endpoint : ApiEndpoint
  pub helm_release : Option VirtualClusterHelmRelease

abbrev pub VirtualClusterPhase : Type 0
VirtualClusterPhase = String

abbrev pub virtual_cluster_unknown : VirtualClusterPhase
virtual_cluster_unknown = ""

abbrev pub virtual_cluster_pending : VirtualClusterPhase
virtual_cluster_pending = "Pending"

abbrev pub virtual_cluster_deployed : VirtualClusterPhase
virtual_cluster_deployed = "Deployed"

abbrev pub virtual_cluster_failed : VirtualClusterPhase
virtual_cluster_failed = "Failed"

pub record VClusterStatus : Type 0 where
  pub ready : Bool
  pub initialized : Bool
  pub phase : VirtualClusterPhase
  pub reason : String
  pub message : String
  pub conditions : Conditions
  pub observed_generation : ℕ

-- `metav1.ObjectMeta`, as far as it is used. An owner reference is its kind.
pub record ObjectMeta : Type 0 where
  pub name : String
  pub namespace : String
  pub generation : ℕ
  pub deletion_timestamp : Option Time
  pub owner_references : List String
  pub finalizers : List String

pub record VCluster : Type 0 where
  pub kind : String
  pub metadata : ObjectMeta
  pub spec : VClusterSpec
  pub status : VClusterStatus

unfoldable pub get_conditions : VCluster → Conditions
get_conditions v = v.status.conditions

unfoldable pub set_conditions : VCluster → Conditions → VCluster
set_conditions v cs = record v { status = record (v.status) { conditions = cs } }
