-- ===== src/Controllers/Kubeconfig/Readyz.antt =====
-- The address that the readiness check asks, against the server of the published kubeconfig.
use Prim.Native.String.{◌++◌ as append}
use text.Mathlib.Text.{starts_with}
use text.Mathlib.TextLemmas.{append_assoc}
use cluster_api_provider_vcl.Base.{ℕ, ◌≡◌, ◌∙◌, refl, sym, ap, String, Bool, false, not, ◌==◌}
use cluster_api_provider_vcl.Base.Tests.{if◌then◌else◌, nat_eq}
use cluster_api_provider_vcl.Base.Decimal.{decimal}
use cluster_api_provider_vcl.Api.VCluster.{ApiEndpoint}
use cluster_api_provider_vcl.Controllers.Host.{
  default_control_plane_port, address_for, with_https, server_for, readyz_url,
}

-- Both tests of the address fail.
choose :
    (print : ℕ → String) (no_host no_port : Bool) (port default : ℕ) (host server : String)
    → no_host ≡ false
    → no_port ≡ false
    → (if not no_host
        then append host (append ":" (print (if not no_port then port else default)))
        else server)
      ≡ append host (append ":" (print port))
choose print no_host no_port port default host server h p = rw (h, p) refl

address_for-port :
    (server : String) (e : ApiEndpoint)
    → (e.host == "") ≡ false
    → nat_eq e.port 0 ≡ false
    → address_for server e.host e.port ≡ append e.host (append ":" (decimal e.port))
unfolding address_for
address_for-port server e h p =
    choose decimal (e.host == "") (nat_eq e.port 0) e.port default_control_plane_port e.host server
      h p

with_https-plain :
    (address : String)
    → starts_with address "https://" ≡ false
    → with_https address ≡ append "https://" address
unfolding with_https
with_https-plain address h = rw h refl

append_path :
    (host port : String)
    → append "https://" (append host (append ":" (append port "/readyz")))
      ≡ append (append "https://" (append host (append ":" port))) "/readyz"
append_path host port = rw (append_assoc "https://", append_assoc host, append_assoc ":") refl

-- For an endpoint with a host and a port other than 0, whose address has no https:// of its own,
-- the readiness check asks the server that the kubeconfig is written with, whatever the server
-- was in it.
pub readyz_url-server_for :
    (server : String) (e : ApiEndpoint)
    → (e.host == "") ≡ false
    → nat_eq e.port 0 ≡ false
    → starts_with (append e.host (append ":" (decimal e.port))) "https://" ≡ false
    → readyz_url e ≡ append (server_for server e.host e.port) "/readyz"
unfolding readyz_url server_for
readyz_url-server_for server e h p s =
    append_path e.host (decimal e.port)
    ∙ sym (
        ap (λ x. append x "/readyz")
          (ap with_https (address_for-port server e h p) ∙ with_https-plain _ s))
