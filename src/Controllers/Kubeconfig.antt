-- ===== src/Controllers/Kubeconfig.antt =====
-- `GetVClusterKubeConfig`, `GetVClusterCredentials`, `DiscoverHostFromService`,
-- `syncVClusterKubeconfig` and `checkReadyz`.
pub mod Endpoint
pub mod Readyz
pub mod Progress
pub mod Discovery
use Prim.Native.String.{◌++◌ as append}
use text.Mathlib.Text.{starts_with}
use cluster_api_provider_vcl.Base.{
  ℕ, zero, suc, String, Bool, true, false, not, ◌&&◌, Option, none, some, List, [], ◌∷◌, ◌==◌, map,
}
use cluster_api_provider_vcl.Base.Tests.{if◌then◌else◌, nat_eq, ltb}
use cluster_api_provider_vcl.Base.Lists.{length}
use cluster_api_provider_vcl.Base.Decimal.{decimal}
use cluster_api_provider_vcl.Api.Condition.{
  control_plane_initialized_condition, kubeconfig_ready_condition,
}
use cluster_api_provider_vcl.Api.VCluster.{VCluster}
use cluster_api_provider_vcl.Runtime.{
  Error, Result, ok, err, Exec, errorf, is_not_found, pure, raise, lift, attempt, gets, ◌>>=◌, ◌>>◌,
  wrapped,
}
use cluster_api_provider_vcl.Kube.{
  World, HttpClient, NamespacedName, Service, Ingress, Secret, Credentials, SecretWrite,
}
use cluster_api_provider_vcl.Kube.Config.{Cluster, AuthInfo, KubeConfig}
use cluster_api_provider_vcl.KubeConfigHelper.{new_vcluster_client_config}
use cluster_api_provider_vcl.Conditions.Setter.{mark_true}
use cluster_api_provider_vcl.Controllers.Host.{
  readyz_url, default_control_plane_port, ingress_host, poll_service, with_https, address_for,
  server_for, set_servers, set_endpoint, write_host, host_or_default,
}
use cluster_api_provider_vcl.Controllers.State.{
  State, vcluster_setter, condition_is_true, on_world, edit, edit_now,
}

abbrev pub kubeconfig_data_name : String
kubeconfig_data_name = "value"

-- The value of a key of a Go map, `none` if it has none.
unfoldable pub entry : String → List (String × String) → Option String
entry k [] = none
entry k ((j, v) ∷ m) = if j == k then some v else entry k m

-- The loop over the users; a Go map is walked in any order.
unfoldable pub first_credentials : List (String × AuthInfo) → Option Credentials
first_credentials [] = none
first_credentials ((user, a) ∷ rest) = elim a.client_key_data [
  | none ↦ first_credentials rest
  | some key ↦ elim a.client_certificate_data [
    | none ↦ first_credentials rest
    | some cert ↦ some (record { client_cert = cert; client_key = key })
  ]
]

unfoldable pub set_initialized : VCluster → VCluster
set_initialized v = record v { status = record (v.status) { initialized = true } }

abbrev pub key_of : VCluster → NamespacedName
key_of v = record { namespace = v.metadata.namespace; name = v.metadata.name }

unfoldable pub kubeconfig_secret : VCluster → String → SecretWrite
kubeconfig_secret v value = record {
  target = record { namespace = v.metadata.namespace; name = append v.metadata.name "-kubeconfig" };
  labels = ("cluster.x-k8s.io/cluster-name", v.metadata.name) ∷ [];
  type = "cluster.x-k8s.io/secret";
  key = kubeconfig_data_name;
  value = value;
}

-- `ClientFor` of the getter that the program uses.
unfoldable pub client_for : {R : Type 0} → R → (timeout : ℕ) → HttpClient R
client_for transport timeout = record { timeout = timeout; transport = transport }

module _ {W R : Type 0} (k : World W R) where
  unfoldable pub get_kube_config : VCluster → Exec W KubeConfig
  get_kube_config v = do
    secret ←
        k.get_secret
          (record { namespace = v.metadata.namespace; name = append "vc-" v.metadata.name })
    elim (entry "config" secret.data_entries) [
      | none ↦ raise (errorf "couldn't find kube config in vcluster secret")
      | some bytes ↦ wrapped "failed to load vcluster kube config: " (lift (k.load_config bytes))
    ]

  unfoldable pub get_credentials : VCluster → Exec W Credentials
  get_credentials v = do
    config ← get_kube_config v
    elim (first_credentials config.auth_infos) [
      | none ↦ raise (
          errorf
            "couldn't parse kube config, because it seems the vcluster kube config is invalid and missing client cert & client key")
      | some c ↦ pure c
    ]

  -- `PollUntilContextTimeout`: at once, and then again until the rounds are over.
  -- What a round does with the answer of the server.
  unfoldable pub poll_next : Exec W String → Option String → Exec W String
  poll_next again none w = again w
  poll_next again (some host) w = (ok host, w)

  unfoldable pub poll_answer : Exec W String → Result Service → Exec W String
  unfolding poll_service poll_next
  poll_answer again (err e) w = if is_not_found e then (ok "", w) else (err e, w)
  poll_answer again (ok service) w = poll_next again (poll_service service) w

  unfoldable pub poll_host : ℕ → VCluster → Exec W String
  unfolding poll_answer
  poll_host zero v w = (err (errorf "context deadline exceeded"), w)
  poll_host (suc rounds) v w =
      let (r, w') = k.get_service (key_of v) w in poll_answer (poll_host rounds v) r w'

  unfoldable pub discover_host : VCluster → Exec W String
  unfolding host_or_default
  discover_host v = do
    host ← wrapped "can not get vcluster service: " (poll_host k.poll_rounds v)
    pure (host_or_default v host)

  -- The check of the virtual cluster, made until it has succeeded once.
  unfoldable pub check_initialized : R → Exec (State W) (Unit {0})
  check_initialized config = do
    v ← gets (λ s. s.vcluster)
    (if condition_is_true v control_plane_initialized_condition
        then pure tt
        else on_world (k.get_service_account config)
          >> edit_now k.now (λ t o. mark_true t o control_plane_initialized_condition))

  -- The host of the object, or else the discovered one, which is written into the object.
  unfoldable pub host_of : VCluster → Exec (State W) String
  host_of v =
      if v.spec.control_plane_endpoint.host == ""
      then (do host ← on_world (discover_host v); edit (write_host host); pure host)
      else pure v.spec.control_plane_endpoint.host

  unfoldable pub ensure_host : Exec (State W) String
  unfolding host_of
  ensure_host = do v ← gets (λ s. s.vcluster); host_of v

  unfoldable pub sync_kubeconfig : Exec (State W) R
  sync_kubeconfig = do
    v ← gets (λ s. s.vcluster)
    credentials ← on_world (get_credentials v)
    config ← lift (
        new_vcluster_client_config k.client_config v.metadata.name v.metadata.namespace ""
          (some credentials.client_cert) (some credentials.client_key))
    on_world (k.new_for_config config)
    check_initialized config
    edit set_initialized
    kube_config ← wrapped "can not retrieve kubeconfig: " (on_world (get_kube_config v))
    (if nat_eq (length kube_config.clusters) 1
        then pure tt
        else raise (errorf "unexpected kube config"))
    host ← ensure_host
    port ← gets (λ s. s.vcluster.spec.control_plane_endpoint.port)
    let clusters = set_servers host port kube_config.clusters
    out ← lift (k.write_config (record kube_config { clusters = clusters }))
    wrapped "can not create a kubeconfig secret: "
        (on_world (k.create_or_patch_secret (kubeconfig_secret v out)))
    edit_now k.now (λ t o. mark_true t o kubeconfig_ready_condition)
    pure config

  -- The answer of the readiness check, which is compared with "ok".
  unfoldable pub check_readyz : R → Exec (State W) Bool
  check_readyz config = do
    v ← gets (λ s. s.vcluster)
    lift (k.transport_for config)
    read_all ←
        on_world (k.http_get (client_for config 10) (readyz_url v.spec.control_plane_endpoint))
    body ← on_world read_all
    pure (body == "ok")
