-- ===== src/Controllers/Host.antt =====
-- The host and the port of an object's endpoint, and the servers of its kubeconfig.
use Prim.Native.String.{◌++◌ as append}
use text.Mathlib.Text.{starts_with}
use cluster_api_provider_vcl.Base.{ℕ, String, not, Option, none, some, List, [], ◌∷◌, ◌==◌}
use cluster_api_provider_vcl.Base.Tests.{if◌then◌else◌, nat_eq}
use cluster_api_provider_vcl.Base.Decimal.{decimal}
use cluster_api_provider_vcl.Api.VCluster.{ApiEndpoint, VCluster}
use cluster_api_provider_vcl.Kube.{Service, Ingress}
use cluster_api_provider_vcl.Kube.Config.{Cluster}

abbrev pub default_control_plane_port : ℕ
default_control_plane_port = 443

-- The host of an ingress: the name, or else the address.
unfoldable pub ingress_host : Ingress → String
ingress_host i =
    if not (i.hostname == "") then i.hostname else if not (i.ip == "") then i.ip else ""

-- A round of the poll: the answer, or that it is to go on.
unfoldable pub poll_service : Service → Option String
unfolding ingress_host
poll_service service =
    if not (service.type == "LoadBalancer") then some "" else elim service.ingress [
      | [] ↦ none
      | i ∷ rest ↦ if ingress_host i == "" then none else some (ingress_host i)
    ]

unfoldable pub with_https : String → String
with_https host = if not (starts_with host "https://") then append "https://" host else host

-- The server that the kubeconfig is written with, by the endpoint's host and port.
unfoldable pub address_for : (server host : String) → (port : ℕ) → String
unfolding decimal
address_for server host port =
    if not (host == "")
    then append host
        (append ":" (decimal (if not (nat_eq port 0) then port else default_control_plane_port)))
    else server

unfoldable pub server_for : (server host : String) → (port : ℕ) → String
unfolding with_https address_for
server_for server host port = with_https (address_for server host port)

-- The loop over the clusters.
unfoldable pub set_servers :
    (host : String) → (port : ℕ) → List (String × Cluster) → List (String × Cluster)
unfolding server_for
set_servers host port [] = []
set_servers host port ((key, c) ∷ rest) =
    (key, record c { server = server_for c.server host port }) ∷ set_servers host port rest

abbrev pub set_endpoint : String → ℕ → VCluster → VCluster
set_endpoint host port v = record v {
  spec = record (v.spec) { control_plane_endpoint = record { host = host; port = port } };
}

-- The discovered host is written back, with the default port where none is set.
unfoldable pub write_host : String → VCluster → VCluster
write_host host v =
    let port = v.spec.control_plane_endpoint.port in
    set_endpoint host (if nat_eq port 0 then default_control_plane_port else port) v

-- The name of the service, where it has no host of its own.
unfoldable pub host_or_default : VCluster → String → String
host_or_default v host =
    if host == "" then append v.metadata.name (append "." v.metadata.namespace) else host

-- What the readiness check asks.
unfoldable pub readyz_url : ApiEndpoint → String
unfolding decimal
readyz_url e = append "https://" (append e.host (append ":" (append (decimal e.port) "/readyz")))
