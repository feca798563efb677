-- ===== src/Helm/Metadata.antt =====
-- pkg/helm/types.go: charts as a repository describes them.
use cluster_api_provider_vcl.Base.{String, Bool, Option, List}

pub record Maintainer : Type 0 where
  pub name : String
  pub email : String
  pub url : String

-- A pointer is `none` where it is nil.
pub record Metadata : Type 0 where
  pub name : String
  pub home : String
  pub sources : List String
  pub version : String
  pub description : String
  pub keywords : List String
  pub maintainers : List (Option Maintainer)
  pub icon : String
  pub api_version : String
  pub condition : String
  pub tags : String
  pub app_version : String
  pub deprecated : Bool
  pub annotations : List (String × String)
  pub kube_version : String
  pub type : String
  pub urls : List String

pub record ChartRepository : Type 0 where
  pub name : String
  pub url : String
  pub username : String
  pub password : String
  pub insecure : Bool

pub record Chart : Type 0 where
  pub metadata : Metadata
  pub versions : List String
  pub repository : ChartRepository
