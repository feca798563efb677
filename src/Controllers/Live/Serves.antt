-- ===== src/Controllers/Live/Serves.antt =====
-- A world and a helm client that serve the reconciliation of an object, and the steps that then
-- succeed.
pub mod Sync
pub mod Body
use Prim.Native.String.{◌++◌ as append}
use cluster_api_provider_vcl.Base.{ℕ, suc, ◌≡◌, refl, String, some}
use cluster_api_provider_vcl.Base.Lists.{length}
use cluster_api_provider_vcl.Api.VCluster.{VCluster}
use cluster_api_provider_vcl.Runtime.{ok, Exec, pure, lift}
use cluster_api_provider_vcl.Helm.Options.{UpgradeOptions}
use cluster_api_provider_vcl.Kube.{
  World, HelmClient, HttpClient, Secret, SecretWrite, Service, Credentials,
}
use cluster_api_provider_vcl.Kube.Config.{KubeConfig}
use cluster_api_provider_vcl.KubeConfigHelper.{new_vcluster_client_config}
use cluster_api_provider_vcl.Controllers.Host.{poll_service, host_or_default}
use cluster_api_provider_vcl.Controllers.Kubeconfig.{
  entry, first_credentials, get_kube_config, get_credentials, poll_answer, poll_next, poll_host,
  discover_host, key_of,
}
use cluster_api_provider_vcl.Controllers.Live.{Gives, Gives-bind, Gives-wrapped}

pub record Serves {W R : Type 0} (k : World W R) (helm : HelmClient W) (name namespace : String)
    : Type 0 where
  pub upgrade : (options : UpgradeOptions) → Gives (helm.upgrade name namespace options) tt
  -- the secret of the virtual cluster, with the kubeconfig of one cluster and of one user
  pub secret : Secret
  pub get_secret :
      Gives (k.get_secret (record { namespace = namespace; name = append "vc-" name })) secret
  pub text : String
  pub config_entry : entry "config" secret.data_entries ≡ some text
  pub kube_config : KubeConfig
  pub load_config : k.load_config text ≡ ok kube_config
  pub credentials : Credentials
  pub has_credentials : first_credentials kube_config.auth_infos ≡ some credentials
  pub one_cluster : length kube_config.clusters ≡ 1
  -- its rest config, with which the virtual cluster answers
  pub rest_config : R
  pub client_config :
      new_vcluster_client_config k.client_config name namespace ""
        (some credentials.client_cert)
        (some credentials.client_key)
      ≡ ok rest_config
  pub new_for_config : Gives (k.new_for_config rest_config) tt
  pub get_service_account : Gives (k.get_service_account rest_config) tt
  pub transport_for : k.transport_for rest_config ≡ ok tt
  pub read_body : HttpClient R → String → Exec W String
  pub http_get : (c : HttpClient R) (url : String) → Gives (k.http_get c url) (read_body c url)
  pub healthy : (c : HttpClient R) (url : String) → Gives (read_body c url) "ok"
  -- its service, which has a host or needs none
  pub service : Service
  pub get_service : Gives (k.get_service (record { namespace = namespace; name = name })) service
  pub host : String
  pub has_host : poll_service service ≡ some host
  pub last_rounds : ℕ
  pub poll_rounds : k.poll_rounds ≡ suc last_rounds
  -- the kubeconfig that is written
  pub out : KubeConfig → String
  pub write_config : (c : KubeConfig) → k.write_config c ≡ ok (out c)
  pub create_or_patch_secret : (s : SecretWrite) → Gives (k.create_or_patch_secret s) tt

-- The object has the name and the namespace.
pub record IsNamed (name namespace : String) (v : VCluster) : Type 0 where
  pub named : v.metadata.name ≡ name
  pub spaced : v.metadata.namespace ≡ namespace

module _ {W R : Type 0} (k : World W R) (helm : HelmClient W) (name namespace : String)
    (serves : Serves k helm name namespace) (v : VCluster) (h : IsNamed name namespace v) where
  secret_of :
      Gives
        (k.get_secret
          (record { namespace = v.metadata.namespace; name = append "vc-" v.metadata.name }))
        serves.secret
  secret_of = rw (h.named, h.spaced) serves.get_secret

  service_of : Gives (k.get_service (key_of v)) serves.service
  service_of = rw (h.named, h.spaced) serves.get_service

  pub get_kube_config-Gives : Gives (get_kube_config k v) serves.kube_config
  unfolding get_kube_config lift
  get_kube_config-Gives =
      Gives-bind _ _ serves.secret serves.kube_config secret_of
        (rw serves.config_entry (Gives-wrapped _ _ serves.kube_config λ w. serves.load_config))

  pub get_credentials-Gives : Gives (get_credentials k v) serves.credentials
  unfolding get_credentials pure
  get_credentials-Gives =
      Gives-bind _ _ serves.kube_config serves.credentials get_kube_config-Gives
        (rw serves.has_credentials λ w. refl)

  poll_host-Gives : (rounds : ℕ) → Gives (poll_host k (suc rounds) v) serves.host
  unfolding poll_host poll_answer poll_next
  poll_host-Gives rounds w = rw (service_of w, serves.has_host) refl

  polled : (rounds : ℕ) → rounds ≡ suc serves.last_rounds → Gives (poll_host k rounds v) serves.host
  polled rounds e = rw e (poll_host-Gives serves.last_rounds)

  pub discover_host-Gives : Gives (discover_host k v) (host_or_default v serves.host)
  unfolding discover_host pure
  discover_host-Gives =
      Gives-bind _ _ serves.host (host_or_default v serves.host)
        (Gives-wrapped _ _ serves.host (polled k.poll_rounds serves.poll_rounds)) λ w. refl
