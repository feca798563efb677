-- ===== src/Controllers/Kubeconfig/Progress.antt =====
-- What the synchronisation of the kubeconfig leaves in the object.
use cluster_api_provider_vcl.Base.{◌≡◌, ◌∙◌, refl, sym, ap, String, Bool, true, false, ◌==◌}
use cluster_api_provider_vcl.Base.Tests.{nat_eq}
use cluster_api_provider_vcl.Base.Lists.{length}
use cluster_api_provider_vcl.Api.Condition.{
  Time, ConditionType, control_plane_initialized_condition, kubeconfig_ready_condition,
  helm_chart_deployed_condition,
}
use cluster_api_provider_vcl.Api.VCluster.{VCluster, get_conditions}
use cluster_api_provider_vcl.Runtime.{Result, ok, err, Exec, wrap_result, wrapped}
use cluster_api_provider_vcl.Kube.{World}
use cluster_api_provider_vcl.Conditions.Getter.{is_true, get, find}
use cluster_api_provider_vcl.Conditions.Setter.{mark_true}
use cluster_api_provider_vcl.Controllers.State.{
  State, vcluster_setter, vcluster_getter, condition_is_true, on_world,
}
use cluster_api_provider_vcl.Controllers.Writes.{
  HasDistinct, mark_true-is_true, mark_true-HasDistinct, mark_true-rest_of, rest_of,
}
use cluster_api_provider_vcl.Controllers.Ensures.{
  Ensures, Leaves, Ensures-pure, Ensures-raise, Ensures-if, Ensures-on_world, Ensures-lift,
  Ensures-gets, Ensures-gets_vcluster, Ensures-edit, Ensures-edit_now, Ensures-bind,
}
use cluster_api_provider_vcl.Controllers.Kubeconfig.{
  check_initialized, ensure_host, host_of, sync_kubeconfig, set_initialized,
}
use cluster_api_provider_vcl.Controllers.Host.{write_host}

-- The conditions that are true when `b` says so of the chart.
pub record Sound (b : Bool) (v : VCluster) : Type 0 where
  pub distinct : HasDistinct v
  pub chart : condition_is_true v helm_chart_deployed_condition ≡ b

pub record Checked (b : Bool) (v : VCluster) : Type 0 where
  pub sound : Sound b v
  pub control_plane : condition_is_true v control_plane_initialized_condition ≡ true

pub record Initialized (b : Bool) (v : VCluster) : Type 0 where
  pub checked : Checked b v
  pub initialized : v.status.initialized ≡ true

pub record Synced (b : Bool) (v : VCluster) : Type 0 where
  pub initialized : Initialized b v
  pub kubeconfig : condition_is_true v kubeconfig_ready_condition ≡ true

mark_true-Sound :
    {b : Bool} (t : Time) (v : VCluster) (u : ConditionType)
    → (u == helm_chart_deployed_condition) ≡ false
    → Sound b v
    → Sound b (mark_true t v u)
mark_true-Sound t v u n h = record {
  distinct = mark_true-HasDistinct t v u h.distinct;
  chart = mark_true-is_true t v u helm_chart_deployed_condition h.distinct ∙ rw n h.chart;
}

set_initialized-condition :
    (v : VCluster) (t : ConditionType)
    → condition_is_true (set_initialized v) t ≡ condition_is_true v t
unfolding set_initialized condition_is_true vcluster_getter is_true get get_conditions find
set_initialized-condition v t = refl

write_host-condition :
    (h : String) (v : VCluster) (t : ConditionType)
    → condition_is_true (write_host h v) t ≡ condition_is_true v t
unfolding write_host condition_is_true vcluster_getter is_true get get_conditions find
write_host-condition h v t = refl

set_initialized-Initialized :
    {b : Bool} (v : VCluster) → Checked b v → Initialized b (set_initialized v)
unfolding set_initialized
set_initialized-Initialized v h = record {
  checked = record {
    sound = record {
      distinct = h.sound.distinct;
      chart = set_initialized-condition v helm_chart_deployed_condition ∙ h.sound.chart;
    };
    control_plane =
        set_initialized-condition v control_plane_initialized_condition ∙ h.control_plane;
  };
  initialized = refl;
}

write_host-Initialized :
    {b : Bool} (host : String) (v : VCluster) → Initialized b v → Initialized b (write_host host v)
unfolding write_host
write_host-Initialized host v h = record {
  checked = record {
    sound = record {
      distinct = h.checked.sound.distinct;
      chart = write_host-condition host v helm_chart_deployed_condition ∙ h.checked.sound.chart;
    };
    control_plane =
        write_host-condition host v control_plane_initialized_condition ∙ h.checked.control_plane;
  };
  initialized = h.initialized;
}

mark_true-Checked :
    {b : Bool} (t : Time) (v : VCluster)
    → Sound b v
    → Checked b (mark_true t v control_plane_initialized_condition)
mark_true-Checked t v h = record {
  sound = mark_true-Sound t v control_plane_initialized_condition refl h;
  control_plane =
      mark_true-is_true t v control_plane_initialized_condition control_plane_initialized_condition
        h.distinct;
}

mark_true-Synced :
    {b : Bool} (t : Time) (v : VCluster)
    → Initialized b v
    → Synced b (mark_true t v kubeconfig_ready_condition)
unfolding rest_of
mark_true-Synced t v h =
    let d = h.checked.sound.distinct in
    record {
      initialized = record {
        checked = record {
          sound = mark_true-Sound t v kubeconfig_ready_condition refl h.checked.sound;
          control_plane =
              mark_true-is_true t v kubeconfig_ready_condition control_plane_initialized_condition d
              ∙ h.checked.control_plane;
        };
        initialized =
            ap (λ (w : VCluster). w.status.initialized)
              (mark_true-rest_of t v kubeconfig_ready_condition)
            ∙ h.initialized;
      };
      kubeconfig = mark_true-is_true t v kubeconfig_ready_condition kubeconfig_ready_condition d;
    }

module _ {W R : Type 0} (k : World W R) (b : Bool) where
  check_initialized-Checked :
      (config : R) → Ensures (Sound b) (check_initialized k config) (λ _. Checked b) (Sound b)
  unfolding check_initialized
  check_initialized-Checked config = Ensures-bind _ _ Ensures-gets_vcluster λ v.
      Ensures-if (condition_is_true v control_plane_initialized_condition) _ _
        (λ e. Ensures-pure tt λ w h. record {
          sound = h.0;
          control_plane =
              ap (λ u. condition_is_true u control_plane_initialized_condition) (sym h.1) ∙ e;
        })
        (λ e.
          Ensures-bind _ _ (Ensures-on_world (λ w h. h.0) (k.get_service_account config))
            λ _. Ensures-edit_now k.now _ λ t w h. mark_true-Checked t w h.0)

  Sound-of : (v : VCluster) → Initialized b v → Sound b v
  Sound-of v h = h.checked.sound

  wrap_result-Leaves :
      {A : Type 0} (prefix : String) (r : Result A) (s : State W)
      → Leaves (λ _. Initialized b) (Sound b) (r, s)
      → Leaves (λ _. Initialized b) (Sound b) (wrap_result prefix r, s)
  unfolding wrap_result
  wrap_result-Leaves prefix (ok a) s h = h
  wrap_result-Leaves prefix (err e) s h = h

  wrapped-Ensures :
      {A : Type 0} (prefix : String) (m : Exec W A)
      → Ensures (Initialized b) (wrapped prefix (on_world m)) (λ _. Initialized b) (Sound b)
  unfolding wrapped on_world
  wrapped-Ensures prefix m = record {
    at = λ s p.
        let (r, w) = m s.world in
        wrap_result-Leaves prefix r (record s { world = w })
          ((Ensures-on_world {E = Sound b} Sound-of m).at s p);
  }

  ensure_host-Initialized : Ensures (Initialized b) (ensure_host k) (λ _. Initialized b) (Sound b)
  unfolding ensure_host host_of
  ensure_host-Initialized = Ensures-bind _ _ Ensures-gets_vcluster λ v.
      Ensures-if (v.spec.control_plane_endpoint.host == "") _ _
        (λ e. Ensures-bind _ _ (Ensures-on_world (λ w h. Sound-of w h.0) _) λ host.
          Ensures-bind _ _ (Ensures-edit (write_host host) λ w h. write_host-Initialized host w h.0)
            λ _. Ensures-pure host λ w h. h)
        (λ e. Ensures-pure _ λ w h. h.0)

  sync_kubeconfig-Ensures : Ensures (Sound b) (sync_kubeconfig k) (λ _. Synced b) (Sound b)
  unfolding sync_kubeconfig
  sync_kubeconfig-Ensures = Ensures-bind _ _ (Ensures-gets (λ s. s.vcluster)) λ v.
      Ensures-bind _ _ (Ensures-on_world (λ w h. h) _) λ credentials.
        Ensures-bind _ _ (Ensures-lift (λ w h. h) _) λ config.
          Ensures-bind _ _ (Ensures-on_world (λ w h. h) _) λ _.
            Ensures-bind _ _ (check_initialized-Checked config) λ _.
              Ensures-bind _ _ (Ensures-edit set_initialized set_initialized-Initialized) λ _.
                Ensures-bind _ _ (wrapped-Ensures _ _) λ kube_config.
                  Ensures-bind _ _
                    (Ensures-if (nat_eq (length kube_config.clusters) 1) _ _
                      (λ e. Ensures-pure {Q = λ _. Initialized b} tt λ w h. h)
                      (λ e. Ensures-raise _ Sound-of))
                    λ _. Ensures-bind _ _ ensure_host-Initialized λ host.
                      Ensures-bind _ _ (Ensures-gets _) λ port.
                        Ensures-bind _ _ (Ensures-lift Sound-of _) λ out.
                          Ensures-bind _ _ (wrapped-Ensures _ _) λ _.
                            Ensures-bind _ _ (Ensures-edit_now k.now _ mark_true-Synced)
                              λ _. Ensures-pure config λ w h. h

  -- `syncVClusterKubeconfig` on an object with at most one condition of each type keeps that, and
  -- what HelmChartDeployed says; if it succeeds, ControlPlaneInitialized and KubeconfigReady
  -- are True and the object is initialized.
  pub sync_kubeconfig-Synced :
      (s : State W) → Sound b s.vcluster → Leaves (λ _. Synced b) (Sound b) (sync_kubeconfig k s)
  sync_kubeconfig-Synced s h = sync_kubeconfig-Ensures.at s h
