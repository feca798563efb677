-- ===== src/Controllers/Chart.antt =====
-- `deleteHelmChart`.
use cluster_api_provider_vcl.Base.{String, not, ◌==◌}
use cluster_api_provider_vcl.Base.Tests.{if◌then◌else◌}
use cluster_api_provider_vcl.Runtime.{Result, ok, err, Exec, is_not_found, pure, raise}
use cluster_api_provider_vcl.Helm.Secrets.{Release, Codec, get, lookup_string}
use cluster_api_provider_vcl.Kube.{World, HelmClient}

module _ {W R : Type 0} (k : World W R) (helm : HelmClient W) (codec : Codec) where
  -- By the release that was found. A map of labels that is nil has no owner.
  unfoldable pub reply_release : (namespace name : String) → Result Release → Exec W (Unit {0})
  unfolding lookup_string
  reply_release namespace name (err e) = if not (is_not_found e) then raise e else pure tt
  reply_release namespace name (ok release) =
      if not (lookup_string "owner" release.secret.labels == "helm")
      then pure tt
      else helm.delete name namespace

  unfoldable pub delete_helm_chart : (namespace name : String) → Exec W (Unit {0})
  unfolding reply_release
  delete_helm_chart namespace name w =
      let (r, w') = get k.list_secrets codec name namespace w in reply_release namespace name r w'
