-- ===== src/Controllers/Kubeconfig/Discovery.antt =====
-- The poll for the host of the service, over the answers of the server.
use Prim.Native.String.{◌++◌ as append}
use cluster_api_provider_vcl.Base.{
  ℕ, zero, suc, ◌≡◌, ◌≢◌, ◌∙◌, refl, ap, String, none, some, List, [], ◌∷◌, arith, ◌<◌, ◌⊎◌, inl,
  inr, ◌==◌, eq_iff,
}
use cluster_api_provider_vcl.Base.Tests.{if◌then◌else◌}
use cluster_api_provider_vcl.Api.VCluster.{VCluster}
use cluster_api_provider_vcl.Runtime.{Result, ok, continue, pure, wrapped, wrap_result, ◌>>=◌}
use cluster_api_provider_vcl.Kube.{World, Service, Ingress}
use cluster_api_provider_vcl.Controllers.Kubeconfig.{
  key_of, poll_next, poll_answer, poll_host, discover_host,
}
use cluster_api_provider_vcl.Controllers.Host.{poll_service, ingress_host, host_or_default}

-- A load balancer that has no address yet.
pub record IsPending (service : Service) : Type 0 where
  pub balances : service.type ≡ "LoadBalancer"
  pub no_address :
      (service.ingress ≡ [])
      ⊎ ((i : Ingress) × (rest : List Ingress) × (service.ingress ≡ i ∷ rest)
          × (i.hostname ≡ "")
          × (i.ip ≡ ""))

-- The service has the host: none if it is no load balancer, and else the name or the address of its
-- first ingress.
pub data HasHost (service : Service) (host : String) : Type 0 where
  no_balancer : service.type ≢ "LoadBalancer" → host ≡ "" → HasHost service host
  by_name :
      (i : Ingress) (rest : List Ingress)
      → service.type ≡ "LoadBalancer"
      → service.ingress ≡ i ∷ rest
      → i.hostname ≢ ""
      → host ≡ i.hostname
      → HasHost service host
  by_address :
      (i : Ingress) (rest : List Ingress)
      → service.type ≡ "LoadBalancer"
      → service.ingress ≡ i ∷ rest
      → i.hostname ≡ ""
      → i.ip ≢ ""
      → host ≡ i.ip
      → HasHost service host

poll_service-IsPending : (service : Service) → IsPending service → poll_service service ≡ none
unfolding poll_service ingress_host
poll_service-IsPending service h = elim h.no_address [
  | inl e ↦ rw (h.balances, e) refl
  | inr (i, rest, e, n, a) ↦ rw (h.balances, e, n, a) refl
]

poll_service-HasHost :
    (service : Service) (host : String) → HasHost service host → poll_service service ≡ some host
unfolding poll_service ingress_host
poll_service-HasHost service host (no_balancer n e) =
    ground (arith, eq_iff service.type "LoadBalancer")
poll_service-HasHost service host (by_name i rest b e n h) =
    rw (b, e, h) (ground (arith, eq_iff i.hostname ""))
poll_service-HasHost service host (by_address i rest b e n a h) =
    rw (b, e, n, h) (ground (arith, eq_iff i.ip ""))

module _ {W R : Type 0} (k : World W R) (v : VCluster) where
  -- So many answers have a service that is a load balancer without an address.
  pub data Waits : ℕ → W → W → Type 0 where
    no_wait : {w : W} → Waits 0 w w
    wait_once :
        {n : ℕ} {w w' w'' : W} (service : Service)
        → k.get_service (key_of v) w ≡ (ok service, w')
        → IsPending service
        → Waits n w' w''
        → Waits (suc n) w w''

  wait_step :
      (rounds : ℕ) (service : Service) (w w' : W)
      → k.get_service (key_of v) w ≡ (ok service, w')
      → poll_service service ≡ none
      → poll_host k (suc rounds) v w ≡ poll_host k rounds v w'
  unfolding poll_host poll_answer poll_next
  wait_step rounds service w w' p q =
      ap (λ (o : Result Service × W). poll_answer k (poll_host k rounds v) o.0 o.1) p
      ∙ ap (λ o. poll_next k (poll_host k rounds v) o w') q

  found_step :
      (rounds : ℕ) (service : Service) (host : String) (w w' : W)
      → k.get_service (key_of v) w ≡ (ok service, w')
      → poll_service service ≡ some host
      → poll_host k (suc rounds) v w ≡ (ok host, w')
  unfolding poll_host poll_answer poll_next
  found_step rounds service host w w' p q =
      ap (λ (o : Result Service × W). poll_answer k (poll_host k rounds v) o.0 o.1) p
      ∙ ap (λ o. poll_next k (poll_host k rounds v) o w') q

  polled :
      (waits rounds : ℕ) (service : Service) (host : String) (w w' w'' : W)
      → Waits waits w w'
      → k.get_service (key_of v) w' ≡ (ok service, w'')
      → HasHost service host
      → waits < rounds
      → poll_host k rounds v w ≡ (ok host, w'')
  polled waits zero service host w w' w'' t p q l = ground arith
  polled waits (suc rounds) service host w w' w'' no_wait p q l =
      found_step rounds service host w w'' p (poll_service-HasHost service host q)
  polled waits (suc rounds) service host w w' w'' (wait_once {n} {w' = u} s a b t) p q l =
      wait_step rounds s w u a (poll_service-IsPending s b)
      ∙ polled n rounds service host u w' w'' t p q (omega (arith, l))

  -- After fewer answers with a load balancer without an address than there are rounds,
  -- `DiscoverHostFromService` gives the host of the first service that is otherwise: the name or
  -- else the address of the first ingress of a load balancer, and the name and the namespace of
  -- the object, with a dot between them, if it is no load balancer. No call is made after that.
  pub discover_host-found :
      (waits : ℕ) (service : Service) (host : String) (w w' w'' : W)
      → Waits waits w w'
      → k.get_service (key_of v) w' ≡ (ok service, w'')
      → HasHost service host
      → waits < k.poll_rounds
      → discover_host k v w ≡ (
        ok (if host == "" then append v.metadata.name (append "." v.metadata.namespace) else host),
        w'',
      )
  unfolding discover_host ◌>>=◌ wrapped wrap_result pure continue host_or_default
  discover_host-found waits service host w w' w'' t p q l =
      ap
        (λ (o : Result String × W).
          continue (wrap_result "can not get vcluster service: " o.0)
            (λ found. pure (host_or_default v found)) o.1)
        (polled waits k.poll_rounds service host w w' w'' t p q l)
