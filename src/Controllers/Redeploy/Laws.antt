-- ===== src/Controllers/Redeploy/Laws.antt =====
-- What a redeployment leaves, whether it is needed, refused, failed or done.
use cluster_api_provider_vcl.Base.{
  ◌≡◌, ◌∙◌, refl, String, true, false, Option, none, some, ◌==◌, inl, inr,
}
use cluster_api_provider_vcl.Base.Tests.{Bool-cases}
use cluster_api_provider_vcl.Api.Condition.{
  helm_chart_deployed_condition, kubeconfig_ready_condition,
}
use cluster_api_provider_vcl.Api.VCluster.{VirtualClusterHelmRelease}
use cluster_api_provider_vcl.Runtime.{
  Error, Result, ok, err, Exec, raise, ◌>>=◌, ◌>>◌, pure, gets, attempt,
}
use cluster_api_provider_vcl.Kube.{World, HelmClient}
use cluster_api_provider_vcl.Conditions.Setter.{mark_true, delete_condition}
use cluster_api_provider_vcl.Controllers.State.{
  State, vcluster_setter, condition_is_true, on_world, edit, edit_now,
}
use cluster_api_provider_vcl.Controllers.Writes.{
  HasDistinct, rest_of, mark_true-rest_of, delete_condition-rest_of, mark_true-is_true,
  delete_condition-is_true, mark_true-HasDistinct, delete_condition-HasDistinct,
}
use cluster_api_provider_vcl.Controllers.Redeploy.{
  is_up_to_date, install_error, deploy, deploy_release, redeploy_if_needed, chart_path, strip_v,
  chart_name, chart_repo, upgrade_options, is_ok, no_version,
}

pub data Outcome {W : Type 0} (s : State W) (out : Result (Unit {0}) × State W) : Type 0 where
  -- an error, and the object is as it was
  refused :
      (e : Error)
      → is_up_to_date s.vcluster ≡ false
      → out.0 ≡ err e
      → out.1.vcluster ≡ s.vcluster
      → Outcome s out
  -- nothing was called
  current : out ≡ (ok tt, s) → is_up_to_date s.vcluster ≡ true → Outcome s out
  deployed :
      out.0 ≡ ok tt
      → is_up_to_date s.vcluster ≡ false
      → condition_is_true out.1.vcluster helm_chart_deployed_condition ≡ true
      → condition_is_true out.1.vcluster kubeconfig_ready_condition ≡ false
      → HasDistinct out.1.vcluster
      → rest_of out.1.vcluster ≡ rest_of s.vcluster
      → Outcome s out

module _ {W R : Type 0} (k : World W R) (helm : HelmClient W)
    (default_repo default_name : String) where
  unfoldable pub finish : Result (Unit {0}) → Exec (State W) (Unit {0})
  finish done = elim done [
    | err e ↦ raise (install_error e)
    | ok _ ↦
        (edit_now k.now (λ t o. mark_true t o helm_chart_deployed_condition))
        >> edit (λ o. delete_condition o kubeconfig_ready_condition)
  ]

  finish-Outcome :
      (s : State W) (done : Result (Unit {0})) (w : W)
      → is_up_to_date s.vcluster ≡ false
      → HasDistinct s.vcluster
      → Outcome s (finish done (record s { world = w }))
  unfolding ◌>>=◌ edit edit_now finish raise
  finish-Outcome s (err e) w h d = refused (install_error e) h refl refl
  finish-Outcome s (ok _) w h d =
      let (t, w') = k.now w in
      let v = mark_true t s.vcluster helm_chart_deployed_condition in
      let l =
        mark_true-is_true t s.vcluster helm_chart_deployed_condition helm_chart_deployed_condition
          d in
      let l' =
        delete_condition-is_true v kubeconfig_ready_condition helm_chart_deployed_condition in
      let l2 = delete_condition-is_true v kubeconfig_ready_condition kubeconfig_ready_condition in
      let dv = mark_true-HasDistinct t s.vcluster helm_chart_deployed_condition d in
      deployed refl h (l' ∙ l) l2 (delete_condition-HasDistinct v kubeconfig_ready_condition dv) (
        delete_condition-rest_of v kubeconfig_ready_condition
        ∙ mark_true-rest_of t s.vcluster helm_chart_deployed_condition)

  deploy-Outcome :
      (s : State W) (release : VirtualClusterHelmRelease)
      → is_up_to_date s.vcluster ≡ false
      → HasDistinct s.vcluster
      → Outcome s (deploy k helm default_repo default_name release s.vcluster s)
  unfolding deploy ◌>>=◌ attempt on_world finish
  deploy-Outcome s release h d =
      let name = chart_name default_name (some release) in
      let version = strip_v release.chart.version in
      let (stat, w) = k.stat (chart_path name version) s.world in
      let options =
        upgrade_options (is_ok stat) name (chart_repo default_repo (some release)) version
          release.values in
      let (done, w') =
        helm.upgrade s.vcluster.metadata.name s.vcluster.metadata.namespace options w in
      finish-Outcome s done w' h d

  deploy_release-Outcome :
      (s : State W) (o : Option VirtualClusterHelmRelease)
      → is_up_to_date s.vcluster ≡ false
      → HasDistinct s.vcluster
      → Outcome s (deploy_release k helm default_repo default_name o s.vcluster s)
  unfolding deploy_release raise
  deploy_release-Outcome s none h d = refused no_version h refl refl
  deploy_release-Outcome s (some r) h d = elim (Bool-cases (r.chart.version == "")) [
    | inl f ↦ rw f (refused no_version h refl refl)
    | inr f ↦ rw f (deploy-Outcome s r h d)
  ]

  -- `redeployIfNeeded` with at most one condition of each type: an error leaves the object
  -- as it was; nothing is called for a generation that was observed with HelmChartDeployed
  -- True; and otherwise a success leaves HelmChartDeployed True and KubeconfigReady not
  -- True, each type still once, and nothing outside the conditions changed.
  pub redeploy_if_needed-Outcome :
      (s : State W)
      → HasDistinct s.vcluster
      → Outcome s (redeploy_if_needed k helm default_repo default_name s)
  unfolding redeploy_if_needed ◌>>=◌ gets pure
  redeploy_if_needed-Outcome s d = elim (Bool-cases (is_up_to_date s.vcluster)) [
    | inl h ↦ current (rw h refl) h
    | inr h ↦ rw h (deploy_release-Outcome s s.vcluster.spec.helm_release h d)
  ]
