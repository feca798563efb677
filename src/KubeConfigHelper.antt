-- ===== src/KubeConfigHelper.antt =====
-- pkg/util/kubeconfighelper/kubeconfighelper.go: the configurations that the program makes.
use Prim.Native.String.{◌++◌ as append}
use cluster_api_provider_vcl.Base.{String, true, Option, [], ◌∷◌}
use cluster_api_provider_vcl.Runtime.{Result}
use cluster_api_provider_vcl.Kube.Config.{
  Cluster, AuthInfo, KubeConfig, RestConfig, UserInfo, new_cluster, new_auth_info, new_context,
  new_config,
}

-- The cluster and the user of a rest config.
unfoldable pub cluster_of : RestConfig → Cluster
cluster_of config = record new_cluster {
  server = config.host;
  insecure_skip_tls_verify = config.insecure;
  certificate_authority_data = config.ca_data;
  certificate_authority = config.ca_file;
}

unfoldable pub auth_info_of : RestConfig → AuthInfo
auth_info_of config = record new_auth_info {
  token = config.bearer_token;
  token_file = config.bearer_token_file;
  impersonate = config.impersonate.username;
  impersonate_groups = config.impersonate.groups;
  impersonate_user_extra = config.impersonate.extra;
  client_certificate = config.cert_file;
  client_certificate_data = config.cert_data;
  client_key = config.key_file;
  client_key_data = config.key_data;
  username = config.username;
  password = config.password;
  auth_provider = config.auth_provider;
  exec = config.exec_provider;
}

-- One context, with one cluster and one user, all of one name.
unfoldable pub one_context : (name : String) → Cluster → AuthInfo → KubeConfig
one_context name cluster auth_info = record new_config {
  clusters = (name, cluster) ∷ [];
  auth_infos = (name, auth_info) ∷ [];
  contexts = (name, record new_context { cluster = name; auth_info = name }) ∷ [];
  current_context = name;
}

-- The configuration that the client config is made of.
unfoldable pub convert_rest_config : RestConfig → KubeConfig
unfolding one_context cluster_of auth_info_of
convert_rest_config config = one_context "local" (cluster_of config) (auth_info_of config)

-- `RawConfig` of the client config is the library's.
unfoldable pub convert_to_raw_config :
    (raw_config : KubeConfig → Result KubeConfig) → RestConfig → Result KubeConfig
unfolding convert_rest_config
convert_to_raw_config raw_config config = raw_config (convert_rest_config config)

unfoldable pub new_local_config_for :
    (raw_config : KubeConfig → Result KubeConfig) → RestConfig → UserInfo → Result KubeConfig
unfolding convert_to_raw_config
new_local_config_for raw_config config user = convert_to_raw_config raw_config (record config {
  impersonate = record { username = user.name; uid = ""; groups = user.groups; extra = user.extra };
})

-- The server of a virtual cluster inside of the cluster that it runs in.
unfoldable pub internal_server : (name namespace : String) → String
internal_server name namespace =
    append "https://" (append name (append "." (append namespace ":443")))

-- The configuration of a virtual cluster, which `ClientConfig` of the library takes.
unfoldable pub vcluster_config :
    (name namespace token : String) → (client_cert client_key : Option String) → KubeConfig
unfolding one_context internal_server
vcluster_config name namespace token client_cert client_key =
    one_context "default"
      (record new_cluster {
        server = internal_server name namespace;
        insecure_skip_tls_verify = true;
      })
      (record new_auth_info {
        client_certificate_data = client_cert;
        client_key_data = client_key;
        token = token;
      })

unfoldable pub new_vcluster_client_config :
    {R : Type 0}
    → (client_config : KubeConfig → Result R) → (name namespace token : String)
    → (client_cert client_key : Option String) → Result R
unfolding vcluster_config
new_vcluster_client_config client_config name namespace token client_cert client_key =
    client_config (vcluster_config name namespace token client_cert client_key)
