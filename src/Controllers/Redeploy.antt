-- ===== src/Controllers/Redeploy.antt =====
-- `redeployIfNeeded`.
pub mod Laws
use Prim.Native.Nat.{◌<◌}
use Prim.Native.Char.{code}
use Prim.Native.String.{◌++◌ as append, len, slice}
use cluster_api_provider_vcl.Base.{
  String, Bool, not, ◌&&◌, ◌||◌, Option, none, some, List, [], ◌∷◌, ◌==◌,
}
use cluster_api_provider_vcl.Base.Tests.{if◌then◌else◌, nat_eq, ltb}
use cluster_api_provider_vcl.Api.Condition.{
  helm_chart_deployed_condition, kubeconfig_ready_condition,
}
use cluster_api_provider_vcl.Api.VCluster.{VCluster, VirtualClusterHelmRelease}
use cluster_api_provider_vcl.Runtime.{
  Error, Result, ok, err, Exec, errorf, pure, raise, attempt, gets, ◌>>=◌, ◌>>◌,
}
use cluster_api_provider_vcl.Helm.Options.{UpgradeOptions, no_upgrade_options}
use cluster_api_provider_vcl.Kube.{World, HelmClient}
use cluster_api_provider_vcl.Conditions.Setter.{mark_true, delete_condition}
use cluster_api_provider_vcl.Controllers.State.{
  State, vcluster_setter, condition_is_true, on_world, edit, edit_now,
}

-- pkg/constants: the defaults, or what the environment puts in their place.
unfoldable pub default_of : (environment fallback : String) → String
default_of environment fallback = if not (environment == "") then environment else fallback

unfoldable pub chart_repo : String → Option VirtualClusterHelmRelease → String
chart_repo default r =
    let repo : String = elim r [ none ↦ "" | some h ↦ h.chart.repo ] in
    if repo == "" then default else repo

unfoldable pub chart_name : String → Option VirtualClusterHelmRelease → String
chart_name default r =
    let name : String = elim r [ none ↦ "" | some h ↦ h.chart.name ] in
    if name == "" then default else name

-- One `v` at the start of a version is dropped.
unfoldable pub strip_v : String → String
strip_v String.[] = String.[]
strip_v (String.◌∷◌ c s) = if nat_eq (code c) b'v' then s else String.◌∷◌ c s

unfoldable pub chart_path : (name version : String) → String
chart_path name version = append "./" (append name (append "-" (append version ".tgz")))

-- The error of the upgrade, cut to 512 bytes (Go's slice cuts inside a character; `slice` takes
-- the whole characters before it).
unfoldable pub install_error : Error → Error
install_error e =
    let cut : Error =
      if ltb 512 (len e.message) then errorf (append (slice e.message 0 512) " ... ") else e in
    record cut { message = append "error installing / upgrading vcluster: " cut.message }

-- Nothing is to do for a generation that was observed, with the chart deployed.
unfoldable pub is_up_to_date : VCluster → Bool
unfolding condition_is_true
is_up_to_date v =
    nat_eq v.metadata.generation v.status.observed_generation
    && condition_is_true v helm_chart_deployed_condition

unfoldable pub upgrade_options :
    (found : Bool) → (name repo version values : String) → UpgradeOptions
upgrade_options found name repo version values =
    if found
    then record no_upgrade_options { path = chart_path name version; values = values }
    else record no_upgrade_options { chart = name; repo = repo; version = version; values = values }

abbrev is_ok {ℓ} : {A : Type ℓ} → Result A → Bool
is_ok (ok a) = Bool.true
is_ok (err e) = Bool.false

abbrev pub no_version : Error
no_version = errorf "empty value of the .spec.HelmRelease.Version field"

module _ {W R : Type 0} (k : World W R) (helm : HelmClient W)
    (default_repo default_name : String) where
  -- The part of `redeployIfNeeded` from the version on.
  unfoldable pub deploy : VirtualClusterHelmRelease → VCluster → Exec (State W) (Unit {0})
  deploy release v = do
    let repo = chart_repo default_repo (some release)
    let name = chart_name default_name (some release)
    let version = strip_v release.chart.version
    stat ← attempt (on_world (k.stat (chart_path name version)))
    let options = upgrade_options (is_ok stat) name repo version release.values
    done ← attempt (on_world (helm.upgrade v.metadata.name v.metadata.namespace options))
    elim done [
      | err e ↦ raise (install_error e)
      | ok _ ↦
          (edit_now k.now (λ t o. mark_true t o helm_chart_deployed_condition))
          >> edit (λ o. delete_condition o kubeconfig_ready_condition)
    ]

  -- A release without a version is refused.
  unfoldable pub deploy_release :
      Option VirtualClusterHelmRelease → VCluster → Exec (State W) (Unit {0})
  deploy_release none v = raise no_version
  deploy_release (some release) v =
      if release.chart.version == "" then raise no_version else deploy release v

  unfoldable pub redeploy_if_needed : Exec (State W) (Unit {0})
  redeploy_if_needed = do
    v ← gets (λ s. s.vcluster)
    (if is_up_to_date v then pure tt else deploy_release v.spec.helm_release v)
