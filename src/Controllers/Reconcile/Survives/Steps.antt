-- ===== src/Controllers/Reconcile/Survives/Steps.antt =====
-- What every write of the reconciler keeps, each of its steps keeps.
use cluster_api_provider_vcl.Base.{◌≡◌, String, true, Option, none, some, ◌==◌}
use cluster_api_provider_vcl.Base.Tests.{nat_eq}
use cluster_api_provider_vcl.Base.Lists.{length}
use cluster_api_provider_vcl.Api.Condition.{
  ConditionType, control_plane_initialized_condition, kubeconfig_ready_condition,
  helm_chart_deployed_condition,
}
use cluster_api_provider_vcl.Api.VCluster.{VCluster, VirtualClusterHelmRelease}
use cluster_api_provider_vcl.Runtime.{Result, ok, err, Exec, attempt, wrap_result, wrapped}
use cluster_api_provider_vcl.Kube.{World, HelmClient}
use cluster_api_provider_vcl.Helm.Secrets.{Codec}
use cluster_api_provider_vcl.Patching.Options.{PatchHelper}
use cluster_api_provider_vcl.Conditions.Setter.{mark_true}
use cluster_api_provider_vcl.Controllers.State.{
  State, vcluster_setter, condition_is_true, on_world, edit_now,
}
use cluster_api_provider_vcl.Controllers.Ensures.{
  left, leave, Ensures-pure, Ensures-raise, Ensures-if, Ensures-on_world, Ensures-lift,
  Ensures-gets, Ensures-edit, Ensures-edit_now, Ensures-bind,
}
use cluster_api_provider_vcl.Controllers.Redeploy.{
  is_up_to_date, deploy, deploy_release, redeploy_if_needed,
}
use cluster_api_provider_vcl.Controllers.Redeploy.Laws.{finish}
use cluster_api_provider_vcl.Controllers.Kubeconfig.{
  check_initialized, ensure_host, host_of, sync_kubeconfig, check_readyz, set_initialized,
}
use cluster_api_provider_vcl.Controllers.Host.{write_host}
use cluster_api_provider_vcl.Controllers.Reconcile.{
  mark_now, reply_ready, reply_synced, reply_deployed, reconcile_body,
}
use cluster_api_provider_vcl.Controllers.Reconcile.Survives.{
  writes, Survives, Maintains, kubeconfig_written, control_plane_written, chart_written,
}

module _ {W R H : Type 0} (k : World W R) (helm : HelmClient W) (codec : Codec)
    (helper : PatchHelper W H) (P : VCluster → Type 0) (keeps : Survives P) where
  world : {A : Type 0} (m : Exec W A) → Maintains P (on_world m)
  world m = Ensures-on_world (λ u h. h) m

  attempted : {A : Type 0} (m : Exec W A) → Maintains P (attempt (on_world m))
  unfolding attempt on_world
  attempted m = record { at = λ s h. h }

  wrapped_world :
      {A : Type 0} (prefix : String) (m : Exec W A) → Maintains P (wrapped prefix (on_world m))
  unfolding wrapped on_world
  wrapped_world prefix m = record {
    at = λ s h.
        let (r, w) = m s.world in
        leave (λ v p. p) (wrap_result prefix r) (record s { world = w }) h;
  }

  marked :
      (t : ConditionType)
      → writes t ≡ true
      → Maintains P (edit_now k.now (λ now o. mark_true now o t))
  marked t w = Ensures-edit_now k.now _ λ now u h. keeps.marked now u t w h

  finish-Maintains : (done : Result (Unit {0})) → Maintains P (finish k helm "" "" done)
  unfolding finish
  finish-Maintains (err e) = Ensures-raise _ λ u h. h
  finish-Maintains (ok _) =
      Ensures-bind _ _ (marked helm_chart_deployed_condition chart_written)
        λ _. Ensures-edit _ λ u h. keeps.deleted u h

  module _ (default_repo default_name : String) where
    deploy-Maintains :
        (release : VirtualClusterHelmRelease) (u : VCluster)
        → Maintains P (deploy k helm default_repo default_name release u)
    unfolding deploy finish
    deploy-Maintains release u =
        Ensures-bind _ _ (attempted _) λ stat. Ensures-bind _ _ (attempted _) finish-Maintains

    deploy_release-Maintains :
        (o : Option VirtualClusterHelmRelease) (u : VCluster)
        → Maintains P (deploy_release k helm default_repo default_name o u)
    unfolding deploy_release
    deploy_release-Maintains none u = Ensures-raise _ λ w h. h
    deploy_release-Maintains (some release) u =
        Ensures-if (release.chart.version == "") _ _ (λ e. Ensures-raise _ λ w h. h)
          (λ e. deploy-Maintains release u)

    redeploy_if_needed-Maintains : Maintains P (redeploy_if_needed k helm default_repo default_name)
    unfolding redeploy_if_needed
    redeploy_if_needed-Maintains = Ensures-bind _ _ (Ensures-gets (λ s. s.vcluster)) λ u.
        Ensures-if (is_up_to_date u) _ _ (λ e. Ensures-pure tt λ w h. h)
          (λ e. deploy_release-Maintains u.spec.helm_release u)

  check_initialized-Maintains : (config : R) → Maintains P (check_initialized k config)
  unfolding check_initialized
  check_initialized-Maintains config = Ensures-bind _ _ (Ensures-gets (λ s. s.vcluster)) λ u.
      Ensures-if (condition_is_true u control_plane_initialized_condition) _ _
        (λ e. Ensures-pure tt λ w h. h)
        (λ e.
          Ensures-bind _ _ (world _)
            λ _. marked control_plane_initialized_condition control_plane_written)

  ensure_host-Maintains : Maintains P (ensure_host k)
  unfolding ensure_host host_of
  ensure_host-Maintains = Ensures-bind _ _ (Ensures-gets (λ s. s.vcluster)) λ u.
      Ensures-if (u.spec.control_plane_endpoint.host == "") _ _
        (λ e. Ensures-bind _ _ (world _) λ host.
          Ensures-bind _ _ (Ensures-edit (write_host host) (keeps.hosted host))
            λ _. Ensures-pure host λ w h. h)
        (λ e. Ensures-pure _ λ w h. h)

  sync_kubeconfig-Maintains : Maintains P (sync_kubeconfig k)
  unfolding sync_kubeconfig
  sync_kubeconfig-Maintains = Ensures-bind _ _ (Ensures-gets (λ s. s.vcluster)) λ u.
      Ensures-bind _ _ (world _) λ credentials.
        Ensures-bind _ _ (Ensures-lift (λ w h. h) _) λ config. Ensures-bind _ _ (world _) λ _.
          Ensures-bind _ _ (check_initialized-Maintains config) λ _.
            Ensures-bind _ _ (Ensures-edit set_initialized keeps.initialized) λ _.
              Ensures-bind _ _ (wrapped_world _ _) λ kube_config.
                Ensures-bind _ _
                  (Ensures-if (nat_eq (length kube_config.clusters) 1) _ _
                    (λ e. Ensures-pure {Q = λ _. P} tt λ w h. h) (λ e. Ensures-raise _ λ w h. h))
                  λ _. Ensures-bind _ _ ensure_host-Maintains λ host.
                    Ensures-bind _ _ (Ensures-gets _) λ port.
                      Ensures-bind _ _ (Ensures-lift (λ w h. h) _) λ out.
                        Ensures-bind _ _ (wrapped_world _ _) λ _.
                          Ensures-bind _ _ (marked kubeconfig_ready_condition kubeconfig_written)
                            λ _. Ensures-pure config λ w h. h

  check_readyz-Maintains : (config : R) → Maintains P (check_readyz k config)
  unfolding check_readyz
  check_readyz-Maintains config = Ensures-bind _ _ (Ensures-gets (λ s. s.vcluster)) λ u.
      Ensures-bind _ _ (Ensures-lift (λ w h. h) _) λ _.
        Ensures-bind _ _ (world _)
          λ read_all. Ensures-bind _ _ (world _) λ body. Ensures-pure _ λ w h. h

  reply_synced-keeps :
      (r : Result R) (s : State W)
      → P s.vcluster
      → P (reply_synced k helm codec helper r s).1.vcluster
  unfolding reply_synced reply_ready mark_now edit_now
  reply_synced-keeps (err e) s h =
      let (t, w) = k.now s.world in keeps.unchecked t s.vcluster e.message h
  reply_synced-keeps (ok config) s h =
      keeps.ready _ _ (left P (check_readyz k config) s (check_readyz-Maintains config) h)

  reply_deployed-keeps :
      (r : Result (Unit {0})) (s : State W)
      → P s.vcluster
      → P (reply_deployed k helm codec helper r s).1.vcluster
  unfolding reply_deployed mark_now edit_now
  reply_deployed-keeps (err e) s h =
      let (t, w) = k.now s.world in keeps.failed t s.vcluster e.message h
  reply_deployed-keeps (ok _) s h =
      let (r, s') = sync_kubeconfig k s in
      reply_synced-keeps r s' (left P (sync_kubeconfig k) s sync_kubeconfig-Maintains h)

  -- What each write of the body keeps, the body keeps, however it ends.
  pub reconcile_body-keeps :
      (default_repo default_name : String) (s : State W)
      → P s.vcluster
      → P (reconcile_body k helm codec helper default_repo default_name s).1.vcluster
  unfolding reconcile_body
  reconcile_body-keeps default_repo default_name s h =
      let deploy_step = redeploy_if_needed k helm default_repo default_name in
      let (r, s') = deploy_step s in
      reply_deployed-keeps r s'
        (left P deploy_step s (redeploy_if_needed-Maintains default_repo default_name) h)
