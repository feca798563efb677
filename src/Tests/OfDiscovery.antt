-- ===== src/Tests/OfDiscovery.antt =====
-- The theorems on the poll for the service's host, with a service that is given an address late,
-- and on the address of the readiness check.
use cluster_api_provider_vcl.Base.{ℕ, suc, ◌≡◌, refl, inl, [], ◌∷◌, arith, String, eq_iff}
use Prim.Native.String.{◌++◌ as append}
use cluster_api_provider_vcl.Base.Decimal.{decimal}
use cluster_api_provider_vcl.Api.VCluster.{ApiEndpoint}
use cluster_api_provider_vcl.Controllers.Kubeconfig.Readyz.{readyz_url-server_for}
use cluster_api_provider_vcl.Base.Tests.{if◌then◌else◌, ltb}
use cluster_api_provider_vcl.Runtime.{ok}
use cluster_api_provider_vcl.Kube.{World, Service}
use cluster_api_provider_vcl.Controllers.Kubeconfig.{discover_host}
use cluster_api_provider_vcl.Controllers.Host.{readyz_url, server_for}
use cluster_api_provider_vcl.Controllers.Kubeconfig.Discovery.{
  IsPending, HasHost, by_address, Waits, no_wait, wait_once, discover_host-found,
}
use cluster_api_provider_vcl.Tests.Fixtures.{test_world, vcluster_with}

abbrev waiting : Service
waiting = record { type = "LoadBalancer"; ingress = [] }

abbrev ready : Service
ready = record { type = "LoadBalancer"; ingress = record { hostname = ""; ip = "10.0.0.1" } ∷ [] }

-- The state is the number of questions so far; the third is answered with the address.
abbrev late_world : World ℕ String
late_world = record test_world {
  get_service = λ key w. (ok (if ltb w 2 then waiting else ready), suc w);
}

waiting-IsPending : IsPending waiting
waiting-IsPending = record { balances = refl; no_address = inl refl }

ready-HasHost : HasHost ready "10.0.0.1"
ready-HasHost =
    by_address (record { hostname = ""; ip = "10.0.0.1" }) [] refl refl refl
      (λ e. ground (arith, eq_iff "10.0.0.1" "")) refl

two-Waits : Waits late_world (vcluster_with [] []) 2 0 2
two-Waits =
    wait_once waiting refl waiting-IsPending (wait_once waiting refl waiting-IsPending no_wait)

discover_host-found_example : discover_host late_world (vcluster_with [] []) 0 ≡ (ok "10.0.0.1", 3)
discover_host-found_example =
    discover_host-found late_world (vcluster_with [] []) 2 ready "10.0.0.1" 0 2 3 two-Waits refl
      ready-HasHost (omega arith)

-- An endpoint whose host and port are set.
abbrev endpoint : ApiEndpoint
endpoint = record { host = "10.0.0.1"; port = 6443 }

readyz_url-server_for_example :
    readyz_url endpoint ≡ append (server_for "https://localhost:8443" "10.0.0.1" 6443) "/readyz"
readyz_url-server_for_example =
    readyz_url-server_for "https://localhost:8443" endpoint refl refl (unfold decimal in refl)
