-- ===== src/Controllers/Live/Serves/Body.antt =====
-- The body of `Reconcile` where the world and helm serve it.
use cluster_api_provider_vcl.Base.{
  ◌≡◌, ◌∙◌, refl, sym, Bool, String, true, false, none, some, Option, ◌==◌, arith,
}
use cluster_api_provider_vcl.Api.Condition.{
  helm_chart_deployed_condition, kubeconfig_ready_condition,
}
use cluster_api_provider_vcl.Api.VCluster.{VCluster, VirtualClusterHelmRelease}
use cluster_api_provider_vcl.Runtime.{Result, ok, gets, continue, ◌>>=◌}
use cluster_api_provider_vcl.Helm.Secrets.{Codec}
use cluster_api_provider_vcl.Kube.{World, HelmClient}
use cluster_api_provider_vcl.Patching.Options.{PatchHelper}
use cluster_api_provider_vcl.Controllers.State.{State}
use cluster_api_provider_vcl.Controllers.Writes.{HasDistinct, delete_condition-rest_of}
use cluster_api_provider_vcl.Controllers.Redeploy.{
  is_up_to_date, deploy, deploy_release, redeploy_if_needed,
}
use cluster_api_provider_vcl.Controllers.Redeploy.Laws.{finish}
use cluster_api_provider_vcl.Controllers.Kubeconfig.{sync_kubeconfig, check_readyz}
use cluster_api_provider_vcl.Controllers.Kubeconfig.Progress.{Synced}
use cluster_api_provider_vcl.Controllers.Reconcile.{
  Reply, reply_ready, reply_synced, reply_deployed, reconcile_body,
}
use cluster_api_provider_vcl.Controllers.Reconcile.Laws.{
  Verdict, not_deployed, not_synced, not_ready, running, reconcile_body-Verdict,
}
use cluster_api_provider_vcl.Controllers.Live.{
  Done, done, Succeeds, Succeeds-pure, Succeeds-if, Succeeds-attempt, Succeeds-edit, Succeeds-bind,
}
use cluster_api_provider_vcl.Controllers.Live.Serves.{Serves, IsNamed}
use cluster_api_provider_vcl.Controllers.Live.Serves.Sync.{
  IsNamed-rest_of, marked, sync_kubeconfig-Succeeds, check_readyz-Succeeds,
}

-- The object has a release with a version.
pub record IsDeployable (v : VCluster) : Type 0 where
  pub release : VirtualClusterHelmRelease
  pub has_release : v.spec.helm_release ≡ some release
  pub has_version : (release.chart.version == "") ≡ false

-- No error, and the next run after a minute.
abbrev pub in_a_minute : Reply
in_a_minute = record { requeue_after = 60; error = none }

module _ {W R H : Type 0} (k : World W R) (helm : HelmClient W) (codec : Codec)
    (helper : PatchHelper W H) (name namespace : String)
    (serves : Serves k helm name namespace) where
  finish-Succeeds :
      (r : Result (Unit {0}))
      → r ≡ ok tt
      → Succeeds (IsNamed name namespace) (finish k helm "" "" r) (λ _. Unit {0})
  unfolding finish
  finish-Succeeds r e = rw e (
      Succeeds-bind _ _ (marked name namespace k helm serves helm_chart_deployed_condition) λ a q.
        Succeeds-edit _
          (λ v h.
            IsNamed-rest_of name namespace v _
              (delete_condition-rest_of v kubeconfig_ready_condition) h)
          tt)

  module _ (default_repo default_name : String) where
    deploy-Succeeds :
        (release : VirtualClusterHelmRelease) (v : VCluster)
        → IsNamed name namespace v
        → Succeeds
            (IsNamed name namespace)
            (deploy k helm default_repo default_name release v)
            (λ _. Unit {0})
    unfolding deploy finish
    deploy-Succeeds release v h =
        Succeeds-bind {Q = λ _. Unit {0}} _ _ (Succeeds-attempt _ λ w. tt) λ stat q.
          Succeeds-bind {Q = λ r. r ≡ ok tt} _ _
            (Succeeds-attempt _ (rw (h.named, h.spaced) (serves.upgrade _))) finish-Succeeds

    deploy_release-Succeeds :
        (o : Option VirtualClusterHelmRelease) (release : VirtualClusterHelmRelease) (v : VCluster)
        → o ≡ some release
        → (release.chart.version == "") ≡ false
        → IsNamed name namespace v
        → Succeeds
            (IsNamed name namespace)
            (deploy_release k helm default_repo default_name o v)
            (λ _. Unit {0})
    unfolding deploy_release
    deploy_release-Succeeds o release v e f h = rw (e, f) (deploy-Succeeds release v h)

    redeploy_if_needed-Done :
        (s : State W)
        → IsNamed name namespace s.vcluster
        → IsDeployable s.vcluster
        → Done
            (IsNamed name namespace)
            (λ _. Unit {0})
            (redeploy_if_needed k helm default_repo default_name s)
    unfolding redeploy_if_needed gets continue ◌>>=◌
    redeploy_if_needed-Done s h d =
        (Succeeds-if (is_up_to_date s.vcluster) _ _ (λ e. Succeeds-pure tt tt)
            λ e.
              deploy_release-Succeeds s.vcluster.spec.helm_release d.release s.vcluster
                d.has_release d.has_version h).at
          s h

    readied :
        (out : Result Bool × State W)
        → Done (IsNamed name namespace) (λ b. b ≡ true) out
        → (reply_ready k helm codec helper out.0 out.1).0 ≡ in_a_minute
    unfolding reply_ready
    readied out (done b t e q p) = rw (e, q) refl

    synced :
        (out : Result R × State W)
        → Done (IsNamed name namespace) (λ config. config ≡ serves.rest_config) out
        → (reply_synced k helm codec helper out.0 out.1).0 ≡ in_a_minute
    unfolding reply_synced
    synced out (done config t e q p) =
        rw (e, q)
          (readied (check_readyz k serves.rest_config t)
            ((check_readyz-Succeeds name namespace k helm serves).at t p))

    deployed :
        (out : Result (Unit {0}) × State W)
        → Done (IsNamed name namespace) (λ _. Unit {0}) out
        → (reply_deployed k helm codec helper out.0 out.1).0 ≡ in_a_minute
    unfolding reply_deployed
    deployed out (done a t e q p) = rw e (
        synced (sync_kubeconfig k t)
          ((sync_kubeconfig-Succeeds name namespace k helm serves).at t p))

    -- A Reply of a minute is the last of the four ends.
    minute_running :
        (out : Reply × State W)
        → out.0 ≡ in_a_minute
        → Verdict out
        → Synced true out.1.vcluster × (out.1.vcluster.status.ready ≡ true)
    minute_running out e (not_deployed x p d c) = let z = sym p ∙ e in ground arith
    minute_running out e (not_synced p s c) = let z = sym p ∙ e in ground arith
    minute_running out e (not_ready p s c) = let z = sym p ∙ e in ground arith
    minute_running out e (running p s c) = (s, c)

    pub reconcile_body-minute :
        (s : State W)
        → IsNamed name namespace s.vcluster
        → IsDeployable s.vcluster
        → HasDistinct s.vcluster
        → ((reconcile_body k helm codec helper default_repo default_name s).0 ≡ in_a_minute)
          × Synced true (reconcile_body k helm codec helper default_repo default_name s).1.vcluster
          × ((reconcile_body k helm codec helper default_repo default_name
                s).1.vcluster.status.ready
              ≡ true)
    unfolding reconcile_body
    reconcile_body-minute s h d distinct =
        let out = redeploy_if_needed k helm default_repo default_name s in
        let e = deployed out (redeploy_if_needed-Done s h d) in
        let (synced, ready) =
          minute_running (reply_deployed k helm codec helper out.0 out.1) e
            (reconcile_body-Verdict k helm codec helper default_repo default_name s distinct) in
        (e, synced, ready)
