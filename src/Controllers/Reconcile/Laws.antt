-- ===== src/Controllers/Reconcile/Laws.antt =====
-- What a reconciliation leaves, by its reply.
use mathlib.Core.Path.{subst}
use cluster_api_provider_vcl.Base.{◌≡◌, ◌∙◌, refl, sym, String, Bool, true, false, none, some}
use cluster_api_provider_vcl.Base.Tests.{and_right}
use cluster_api_provider_vcl.Api.Condition.{
  ConditionType, control_plane_initialized_condition, kubeconfig_ready_condition,
  helm_chart_deployed_condition, severity_error, severity_warning,
}
use cluster_api_provider_vcl.Api.VCluster.{VCluster, get_conditions}
use cluster_api_provider_vcl.Runtime.{Error, Result, ok, err}
use cluster_api_provider_vcl.Kube.{World, HelmClient}
use cluster_api_provider_vcl.Helm.Secrets.{Codec}
use cluster_api_provider_vcl.Patching.Options.{PatchHelper}
use cluster_api_provider_vcl.Conditions.Getter.{is_true, get, find}
use cluster_api_provider_vcl.Controllers.State.{
  State, vcluster_setter, vcluster_getter, condition_is_true, edit_now,
}
use cluster_api_provider_vcl.Controllers.Writes.{
  HasDistinct, mark_false-is_true, mark_false-HasDistinct,
}
use cluster_api_provider_vcl.Controllers.Ensures.{
  Ensures, Leaves, Ensures-pure, Ensures-on_world, Ensures-lift, Ensures-gets, Ensures-bind,
}
use cluster_api_provider_vcl.Controllers.Redeploy.{is_up_to_date, redeploy_if_needed}
use cluster_api_provider_vcl.Controllers.Redeploy.Laws.{
  Outcome, refused, current, deployed, redeploy_if_needed-Outcome,
}
use cluster_api_provider_vcl.Controllers.Kubeconfig.{sync_kubeconfig, check_readyz}
use cluster_api_provider_vcl.Controllers.Kubeconfig.Progress.{Sound, Synced, sync_kubeconfig-Synced}
use cluster_api_provider_vcl.Controllers.Reconcile.{
  Reply, set_ready, mark_now, reply_ready, reply_synced, reply_deployed, reconcile_body,
}

set_ready-condition :
    (b : Bool) (v : VCluster) (t : ConditionType)
    → condition_is_true (set_ready b v) t ≡ condition_is_true v t
unfolding condition_is_true vcluster_getter is_true get get_conditions find
set_ready-condition b v t = refl

set_ready-Synced : {c : Bool} (b : Bool) (v : VCluster) → Synced c v → Synced c (set_ready b v)
set_ready-Synced b v h =
    let i = h.initialized in
    let s = i.checked.sound in
    record {
      initialized = record {
        checked = record {
          sound = record {
            distinct = s.distinct;
            chart = set_ready-condition b v helm_chart_deployed_condition ∙ s.chart;
          };
          control_plane =
              set_ready-condition b v control_plane_initialized_condition ∙ i.checked.control_plane;
        };
        initialized = i.initialized;
      };
      kubeconfig = set_ready-condition b v kubeconfig_ready_condition ∙ h.kubeconfig;
    }

-- How a run ends, by its reply and by what is in the object.
pub data Verdict {W : Type 0} (out : Reply × State W) : Type 0 where
  not_deployed :
      (e : Error)
      → out.0 ≡ record { requeue_after = 5; error = some e }
      → HasDistinct out.1.vcluster
      → condition_is_true out.1.vcluster helm_chart_deployed_condition ≡ false
      → Verdict out
  not_synced :
      out.0 ≡ record { requeue_after = 5; error = none }
      → Sound true out.1.vcluster
      → condition_is_true out.1.vcluster kubeconfig_ready_condition ≡ false
      → Verdict out
  not_ready :
      out.0 ≡ record { requeue_after = 5; error = none }
      → Synced true out.1.vcluster
      → out.1.vcluster.status.ready ≡ false
      → Verdict out
  running :
      out.0 ≡ record { requeue_after = 60; error = none }
      → Synced true out.1.vcluster
      → out.1.vcluster.status.ready ≡ true
      → Verdict out

module _ {W R H : Type 0} (k : World W R) (helm : HelmClient W) (codec : Codec)
    (helper : PatchHelper W H) where
  check_readyz-Ensures :
      (P : VCluster → Type 0) (config : R) → Ensures P (check_readyz k config) (λ _. P) P
  unfolding check_readyz
  check_readyz-Ensures P config = Ensures-bind _ _ (Ensures-gets (λ s. s.vcluster)) λ v.
      Ensures-bind _ _ (Ensures-lift (λ w h. h) _) λ _.
        Ensures-bind _ _ (Ensures-on_world (λ w h. h) _) λ read_all.
          Ensures-bind _ _ (Ensures-on_world (λ w h. h) _) λ body. Ensures-pure _ λ w h. h

  after_ready :
      (r : Result Bool) (s : State W)
      → Leaves (λ _. Synced true) (Synced true) (r, s)
      → Verdict (reply_ready k helm codec helper r s)
  unfolding reply_ready
  after_ready (err e) s h = not_ready refl (set_ready-Synced false s.vcluster h) refl
  after_ready (ok true) s h = running refl (set_ready-Synced true s.vcluster h) refl
  after_ready (ok false) s h = not_ready refl (set_ready-Synced false s.vcluster h) refl

  after_sync :
      (q : Result R) (s : State W)
      → Leaves (λ _. Synced true) (Sound true) (q, s)
      → Verdict (reply_synced k helm codec helper q s)
  unfolding reply_synced mark_now edit_now
  after_sync (err e) s h =
      let (t, w) = k.now s.world in
      let m =
        mark_false-is_true t s.vcluster kubeconfig_ready_condition "CheckFailed" severity_warning
          e.message in
      not_synced refl
        (record {
          distinct =
              mark_false-HasDistinct t s.vcluster kubeconfig_ready_condition "CheckFailed"
                severity_warning e.message h.distinct;
          chart = m helm_chart_deployed_condition h.distinct ∙ h.chart;
        })
        (m kubeconfig_ready_condition h.distinct)
  after_sync (ok config) s h =
      let (r, s') = check_readyz k config s in
      after_ready r s' ((check_readyz-Ensures (Synced true) config).at s h)

  up_to_date-chart :
      (v : VCluster)
      → is_up_to_date v ≡ true
      → condition_is_true v helm_chart_deployed_condition ≡ true
  unfolding is_up_to_date
  up_to_date-chart v h = and_right _ _ h

  after_success :
      (s : State W) → Sound true s.vcluster → Verdict (reply_deployed k helm codec helper (ok tt) s)
  unfolding reply_deployed
  after_success s h =
      let (q, s') = sync_kubeconfig k s in after_sync q s' (sync_kubeconfig-Synced k true s h)

  after_failure :
      (e : Error) (s : State W)
      → HasDistinct s.vcluster
      → Verdict (reply_deployed k helm codec helper (err e) s)
  unfolding reply_deployed mark_now edit_now
  after_failure e s d =
      let (t, w) = k.now s.world in
      not_deployed e refl
        (mark_false-HasDistinct t s.vcluster helm_chart_deployed_condition "HelmDeployFailed"
          severity_error e.message d)
        (mark_false-is_true t s.vcluster helm_chart_deployed_condition "HelmDeployFailed"
          severity_error e.message helm_chart_deployed_condition d)

  after_deploy :
      (r : Result (Unit {0})) (s s' : State W)
      → HasDistinct s.vcluster
      → Outcome s (r, s')
      → Verdict (reply_deployed k helm codec helper r s')
  after_deploy r s s' d (refused e h p u) = rw p (after_failure e s' (rw u d))
  after_deploy r s s' d (current p h) =
      let success =
        after_success s (record { distinct = d; chart = up_to_date-chart s.vcluster h }) in
      subst
        (λ (o : Result (Unit {0}) × State W). Verdict (reply_deployed k helm codec helper o.0 o.1))
        (sym p) success
  after_deploy r s s' d (deployed p h c n d' u) =
      rw p (after_success s' (record { distinct = d'; chart = c }))

  module _ (default_repo default_name : String) where
    -- The body of `Reconcile` on an object with at most one condition of each type keeps that, and
    -- ends in one of four ways: an error after which HelmChartDeployed is not True; no error,
    -- HelmChartDeployed True and KubeconfigReady not True; no error, all three conditions
    -- True and the status not ready, all with a retry after 5 seconds; or, with the next run
    -- after a minute, all three conditions True and the status initialized and ready.
    pub reconcile_body-Verdict :
        (s : State W)
        → HasDistinct s.vcluster
        → Verdict (reconcile_body k helm codec helper default_repo default_name s)
    unfolding reconcile_body
    reconcile_body-Verdict s d =
        let (r, s') = redeploy_if_needed k helm default_repo default_name s in
        after_deploy r s s' d (redeploy_if_needed-Outcome k helm default_repo default_name s d)
