-- ===== src/Helm/Options.antt =====
-- `UpgradeOptions` of pkg/helm/helm.go. A map is the list of its entries in the order in which a
-- loop over it meets them.
use cluster_api_provider_vcl.Base.{String, Bool, false, List, []}

pub record UpgradeOptions : Type 0 where
  pub chart : String
  pub path : String
  pub repo : String
  pub version : String
  pub values : String
  pub set_values : List (String × String)
  pub set_string_values : List (String × String)
  pub username : String
  pub password : String
  pub atomic : Bool
  pub force : Bool
  pub create_namespace : Bool
  pub insecure_skip_tls_verify : Bool
  pub extra_args : List String

abbrev pub no_upgrade_options : UpgradeOptions
no_upgrade_options = record {
  chart = "";
  path = "";
  repo = "";
  version = "";
  values = "";
  set_values = [];
  set_string_values = [];
  username = "";
  password = "";
  atomic = false;
  force = false;
  create_namespace = false;
  insecure_skip_tls_verify = false;
  extra_args = [];
}
