-- ===== src/Controllers/Steady/Deploy.antt =====
-- `redeployIfNeeded`, where an upgrade leaves the number as it is.
use cluster_api_provider_vcl.Base.{String, Option, none, some, ◌==◌}
use cluster_api_provider_vcl.Api.VCluster.{VCluster, VirtualClusterHelmRelease}
use cluster_api_provider_vcl.Runtime.Steady.{
  IsSteady, pure-IsSteady, raise-IsSteady, attempt-IsSteady, bind-IsSteady, if-IsSteady,
  elim_result-IsSteady,
}
use cluster_api_provider_vcl.Kube.{World, HelmClient}
use cluster_api_provider_vcl.Helm.Options.{UpgradeOptions}
use cluster_api_provider_vcl.Controllers.Redeploy.{
  install_error, is_up_to_date, no_version, deploy, deploy_release, redeploy_if_needed,
}
use cluster_api_provider_vcl.Controllers.Steady.{
  WorldKeeps, counted, on_world-IsSteady, gets-IsSteady, edit-IsSteady, edit_now-IsSteady,
}

module _ {W R : Type 0} (k : World W R) (helm : HelmClient W) {C : Type 0} (count : W → C)
    (keeps : WorldKeeps k count)
    (upgrade : (name namespace : String) (o : UpgradeOptions)
      → IsSteady count (helm.upgrade name namespace o))
    (default_repo default_name : String) where
  deploy-IsSteady :
      (release : VirtualClusterHelmRelease) (v : VCluster)
      → IsSteady (counted count) (deploy k helm default_repo default_name release v)
  unfolding deploy
  deploy-IsSteady release v =
      bind-IsSteady (counted count) _ _
        (attempt-IsSteady (counted count) _ (on_world-IsSteady count _ (keeps.stat _)))
        λ stat.
          bind-IsSteady (counted count) _ _
            (attempt-IsSteady (counted count) _
              (on_world-IsSteady count _ (upgrade v.metadata.name v.metadata.namespace _)))
            λ done.
              elim_result-IsSteady (counted count) done _ _
                (λ _.
                  bind-IsSteady (counted count) _ _ (edit_now-IsSteady count k.now keeps.now _)
                    λ _. edit-IsSteady count _)
                λ e. raise-IsSteady (counted count) (Unit {0}) (install_error e)

  deploy_release-IsSteady :
      (release : Option VirtualClusterHelmRelease) (v : VCluster)
      → IsSteady (counted count) (deploy_release k helm default_repo default_name release v)
  unfolding deploy_release
  deploy_release-IsSteady none v = raise-IsSteady (counted count) (Unit {0}) no_version
  deploy_release-IsSteady (some release) v =
      if-IsSteady (counted count) (release.chart.version == "") _ _
        (raise-IsSteady (counted count) (Unit {0}) no_version) (deploy-IsSteady release v)

  pub redeploy_if_needed-IsSteady :
      IsSteady (counted count) (redeploy_if_needed k helm default_repo default_name)
  unfolding redeploy_if_needed
  redeploy_if_needed-IsSteady = bind-IsSteady (counted count) _ _ (gets-IsSteady count _) λ v.
      if-IsSteady (counted count) (is_up_to_date v) _ _ (pure-IsSteady (counted count) tt)
        (deploy_release-IsSteady v.spec.helm_release v)
