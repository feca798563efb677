-- ===== src/Controllers/Kubeconfig/Endpoint.antt =====
-- The endpoint that the kubeconfig is written with.
use Prim.Native.String.{◌++◌ as append, len}
use text.Mathlib.Text.{starts_with}
use text.Mathlib.TextPositions.{starts_with-append, len-append}
use cluster_api_provider_vcl.Base.{
  ℕ, ◌≡◌, ◌≢◌, refl, ap, String, true, false, not, ◌==◌, arith, inl, inr, eq_iff, ◌&&◌,
}
use cluster_api_provider_vcl.Base.Tests.{nat_eq, Bool-cases}
use cluster_api_provider_vcl.Api.VCluster.{VCluster}
use cluster_api_provider_vcl.Runtime.{Result, ok, err, pure, continue, gets, ◌>>=◌, wrapped}
use cluster_api_provider_vcl.Kube.{World}
use cluster_api_provider_vcl.Controllers.State.{State, on_world, edit}
use cluster_api_provider_vcl.Controllers.Ensures.{
  Ensures, Leaves, Ensures-pure, Ensures-if, Ensures-edit, Ensures-bind,
}
use cluster_api_provider_vcl.Controllers.Kubeconfig.{discover_host, ensure_host, host_of, poll_host}
use cluster_api_provider_vcl.Controllers.Host.{
  with_https, address_for, server_for, host_or_default, write_host,
}

with_https-https : (address : String) → starts_with (with_https address) "https://" ≡ true
unfolding with_https
with_https-https address = elim (Bool-cases (starts_with address "https://")) [
  | inl e ↦ rw e e
  | inr e ↦ rw e (starts_with-append "https://" address)
]

-- Every server that is written into the kubeconfig starts with https://, whatever the server and
-- the endpoint were.
server_for-https :
    (server host : String) (port : ℕ) → starts_with (server_for server host port) "https://" ≡ true
unfolding server_for
server_for-https server host port = with_https-https (address_for server host port)

-- A text with a dot in it is not empty.
dotted_ne_empty : (s t : String) → append s (append "." t) ≢ ""
dotted_ne_empty s t e = omega (arith, ap len e, len-append s (append "." t), len-append "." t)

host_or_default_ne_empty : (v : VCluster) (host : String) → host_or_default v host ≢ ""
unfolding host_or_default
host_or_default_ne_empty v host = elim (Bool-cases (host == "")) [
  | inl e ↦ rw e (dotted_ne_empty v.metadata.name v.metadata.namespace)
  | inr e ↦ rw e λ h. ground (arith, eq_iff host "")
]

-- What the endpoint is after the host is ensured.
pub record Endpoint (v : VCluster) (host : String) (u : VCluster) : Type 0 where
  pub not_empty : host ≢ ""
  same_host : u.spec.control_plane_endpoint.host ≡ host
  pub port : nat_eq u.spec.control_plane_endpoint.port 0 ≡ (
      not (v.spec.control_plane_endpoint.host == "") && nat_eq v.spec.control_plane_endpoint.port 0)

write_host-Endpoint :
    (v : VCluster) (host : String)
    → (v.spec.control_plane_endpoint.host == "") ≡ true
    → host ≢ ""
    → Endpoint v host (write_host host v)
unfolding write_host
write_host-Endpoint v host e n = record {
  not_empty = n;
  same_host = refl;
  port = rw e (ground arith);
}

module _ {W R : Type 0} (k : World W R) where
  finish_host :
      (v : VCluster) (s : State W) (r : Result String) (w : W)
      → s.vcluster ≡ v
      → Leaves
          (λ h u. (u ≡ v) × (h ≢ ""))
          (λ u. u ≡ v)
          (on_world (λ w'. continue r (λ h. pure (host_or_default v h)) w) s)
  unfolding on_world continue pure
  finish_host v s (ok h) w e = (e, host_or_default_ne_empty v h)
  finish_host v s (err x) w e = e

  discover_host-Ensures :
      (v : VCluster)
      → Ensures (λ u. u ≡ v) (on_world (discover_host k v)) (λ h u. (u ≡ v) × (h ≢ "")) (λ u. u ≡ v)
  unfolding discover_host on_world ◌>>=◌
  discover_host-Ensures v = record {
    at = λ s e.
        let (r, w) =
          wrapped "can not get vcluster service: " (poll_host k k.poll_rounds v) s.world in
        finish_host v s r w e;
  }

  set_host :
      (v : VCluster)
      → (v.spec.control_plane_endpoint.host == "") ≡ true
      → (host : String)
      → Ensures {W = W}
          (λ u. (u ≡ v) × (host ≢ ""))
          (edit (write_host host) >>= λ _. pure host)
          (Endpoint v)
          (λ u. u ≡ v)
  set_host v e host =
      Ensures-bind _ _
        (Ensures-edit (write_host host) λ u h. rw (h.0) (write_host-Endpoint v host e h.1))
        λ _. Ensures-pure host λ u h. h

  keep_host :
      (v : VCluster)
      → (v.spec.control_plane_endpoint.host == "") ≡ false
      → Endpoint v v.spec.control_plane_endpoint.host v
  keep_host v e = record {
    not_empty = λ h. ground (arith, eq_iff v.spec.control_plane_endpoint.host "");
    same_host = refl;
    port = rw e refl;
  }

  host_of-Ensures : (v : VCluster) → Ensures (λ u. u ≡ v) (host_of k v) (Endpoint v) (λ u. u ≡ v)
  unfolding host_of
  host_of-Ensures v =
      Ensures-if (v.spec.control_plane_endpoint.host == "") _ _
        (λ e. Ensures-bind _ _ (discover_host-Ensures v) (set_host v e))
        (λ e. Ensures-pure v.spec.control_plane_endpoint.host λ u h. rw h (keep_host v e))

  -- `syncVClusterKubeconfig` on the host of the endpoint: an error leaves the object as it is;
  -- otherwise the host that it goes on with is not empty and is the one in the object, and
  -- the port in the object is 0 just where the host was set before with the port 0.
  pub ensure_host-Endpoint :
      (s : State W) → Leaves (Endpoint s.vcluster) (λ u. u ≡ s.vcluster) (ensure_host k s)
  unfolding ensure_host ◌>>=◌ gets
  ensure_host-Endpoint s = (host_of-Ensures s.vcluster).at s refl
