-- ===== src/Kube/Config.antt =====
-- The configurations of client-go: `api.Config` with its parts, and `rest.Config`. Neither is code
-- of the repository; the fields are those that the code or the conversions of it can tell apart.
use cluster_api_provider_vcl.Base.{String, Bool, false, Option, none, List, []}

pub record AuthProviderConfig : Type 0 where
  pub name : String
  pub config : List (String × String)

pub record ExecConfig : Type 0 where
  pub command : String
  pub args : List String
  pub env : List (String × String)
  pub api_version : String
  pub interactive_mode : String

pub record Cluster : Type 0 where
  pub server : String
  pub tls_server_name : String
  pub insecure_skip_tls_verify : Bool
  pub certificate_authority : String
  pub certificate_authority_data : Option String

-- The data of a certificate or a key is `none` where it is nil.
pub record AuthInfo : Type 0 where
  pub client_certificate : String
  pub client_certificate_data : Option String
  pub client_key : String
  pub client_key_data : Option String
  pub token : String
  pub token_file : String
  pub impersonate : String
  pub impersonate_uid : String
  pub impersonate_groups : List String
  pub impersonate_user_extra : List (String × List String)
  pub username : String
  pub password : String
  pub auth_provider : Option AuthProviderConfig
  pub exec : Option ExecConfig

pub record Context : Type 0 where
  pub cluster : String
  pub auth_info : String
  pub namespace : String

pub record KubeConfig : Type 0 where
  pub clusters : List (String × Cluster)
  pub auth_infos : List (String × AuthInfo)
  pub contexts : List (String × Context)
  pub current_context : String

pub record ImpersonationConfig : Type 0 where
  pub username : String
  pub uid : String
  pub groups : List String
  pub extra : List (String × List String)

-- The fields that the program's own conversion to a configuration carries over or drops by name;
-- those of client-go that are left out here, as `DisableCompression` and `Proxy`, it drops too.
pub record RestConfig : Type 0 where
  pub host : String
  pub insecure : Bool
  pub server_name : String
  pub ca_file : String
  pub ca_data : Option String
  pub cert_file : String
  pub cert_data : Option String
  pub key_file : String
  pub key_data : Option String
  pub bearer_token : String
  pub bearer_token_file : String
  pub username : String
  pub password : String
  pub impersonate : ImpersonationConfig
  pub auth_provider : Option AuthProviderConfig
  pub exec_provider : Option ExecConfig

-- `user.Info`
pub record UserInfo : Type 0 where
  pub name : String
  pub uid : String
  pub groups : List String
  pub extra : List (String × List String)

-- The zero values, which `NewCluster`, `NewAuthInfo`, `NewContext` and `NewConfig` give.
abbrev pub new_cluster : Cluster
new_cluster = record {
  server = "";
  tls_server_name = "";
  insecure_skip_tls_verify = false;
  certificate_authority = "";
  certificate_authority_data = none;
}

abbrev pub new_auth_info : AuthInfo
new_auth_info = record {
  client_certificate = "";
  client_certificate_data = none;
  client_key = "";
  client_key_data = none;
  token = "";
  token_file = "";
  impersonate = "";
  impersonate_uid = "";
  impersonate_groups = [];
  impersonate_user_extra = [];
  username = "";
  password = "";
  auth_provider = none;
  exec = none;
}

abbrev pub new_context : Context
new_context = record { cluster = ""; auth_info = ""; namespace = "" }

abbrev pub new_config : KubeConfig
new_config = record { clusters = []; auth_infos = []; contexts = []; current_context = "" }
