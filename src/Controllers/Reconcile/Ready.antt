-- ===== src/Controllers/Reconcile/Ready.antt =====
-- The object that the deferred function hands to the patch helper.
use cluster_api_provider_vcl.Base.{
  ◌≡◌, ◌∙◌, refl, sym, ap, true, some, [], ◌∷◌, arith, inl, inr, ◌⊎◌, eq_iff,
}
use cluster_api_provider_vcl.Base.Tests.{if◌then◌else◌, Option-cases}
use cluster_api_provider_vcl.Base.Lists.{exists}
use cluster_api_provider_vcl.Api.Condition.{
  Condition, ConditionType, Time, condition_true, control_plane_initialized_condition,
  kubeconfig_ready_condition, ready_condition,
}
use cluster_api_provider_vcl.Api.VCluster.{
  VCluster, get_conditions, virtual_cluster_deployed, virtual_cluster_failed,
}
use cluster_api_provider_vcl.Conditions.Getter.{find}
use cluster_api_provider_vcl.Conditions.Setter.{set_condition}
use cluster_api_provider_vcl.Conditions.Summary.{in_scope, member, summary, set_summary}
use cluster_api_provider_vcl.Conditions.Summary.Scope.{summary-true}
use cluster_api_provider_vcl.Controllers.State.{vcluster_getter, vcluster_setter, condition_is_true}
use cluster_api_provider_vcl.Controllers.Writes.{
  status_is_true, condition_is_true-find, set_condition-is_true, HasDistinct, set_condition-rest_of,
  rest_of,
}
use cluster_api_provider_vcl.Controllers.Kubeconfig.Progress.{Synced}
use cluster_api_provider_vcl.Controllers.Phase.{reconcile_phase}
use cluster_api_provider_vcl.Controllers.Phase.Laws.{
  healthy, broken, reconcile_phase-Verdict, reconcile_phase-phase, is_error, phase_of,
}
use cluster_api_provider_vcl.Controllers.Reconcile.{summary_options}

-- The two types of the summary.
scope_types :
    (t : ConditionType)
    → in_scope (some (kubeconfig_ready_condition ∷ control_plane_initialized_condition ∷ [])) t
      ≡ true
    → (t ≡ kubeconfig_ready_condition) ⊎ (t ≡ control_plane_initialized_condition)
unfolding in_scope member exists
scope_types t h = ground (
  arith,
  eq_iff t kubeconfig_ready_condition,
  eq_iff t control_plane_initialized_condition,
  eq_iff t ready_condition,
)

kubeconfig_in_scope :
    in_scope
      (some (kubeconfig_ready_condition ∷ control_plane_initialized_condition ∷ []))
      kubeconfig_ready_condition
    ≡ true
unfolding in_scope member exists
kubeconfig_in_scope = refl

true_found :
    (v : VCluster) (t : ConditionType) (d : Condition)
    → condition_is_true v t ≡ true
    → find t v.status.conditions ≡ some d
    → d.status ≡ condition_true
true_found v t d h f =
    (eq_iff d.status condition_true).0
      (sym (ap status_is_true f) ∙ sym (condition_is_true-find v t) ∙ h)

found_true :
    (v : VCluster) (t : ConditionType)
    → condition_is_true v t ≡ true
    → (d : Condition) × (find t v.status.conditions ≡ some d)
found_true v t h = elim (Option-cases (find t v.status.conditions)) [
  | inl e ↦ let z = sym h ∙ condition_is_true-find v t ∙ ap status_is_true e in ground arith
  | inr e ↦ e
]

summary_of_true :
    (v : VCluster)
    → HasDistinct v
    → condition_is_true v kubeconfig_ready_condition ≡ true
    → condition_is_true v control_plane_initialized_condition ≡ true
    → (r : Condition) × (summary (vcluster_getter v) summary_options ≡ some r)
      × (r.type ≡ ready_condition)
      × (r.status ≡ condition_true)
unfolding vcluster_getter get_conditions
summary_of_true v d kr ci =
    let (c, f) = found_true v kubeconfig_ready_condition kr in
    summary-true (vcluster_getter v) _ kubeconfig_ready_condition c d kubeconfig_in_scope f
      λ u e s g. elim (scope_types u s) [
        | inl p ↦ true_found v kubeconfig_ready_condition e kr (rw p at g)
        | inr p ↦ true_found v control_plane_initialized_condition e ci (rw p at g)
      ]

-- The summary is written, and no other condition changes.
set_summary-Ready :
    (now : Time) (v : VCluster)
    → HasDistinct v
    → condition_is_true v kubeconfig_ready_condition ≡ true
    → condition_is_true v control_plane_initialized_condition ≡ true
    → (condition_is_true (set_summary now v summary_options) ready_condition ≡ true)
      × (rest_of (set_summary now v summary_options) ≡ rest_of v)
unfolding set_summary vcluster_setter
set_summary-Ready now v d kr ci =
    let (r, e, t, s) = summary_of_true v d kr ci in
    let w = set_condition-is_true now v r ready_condition d in
    (
      ap (λ o. condition_is_true (set_condition now v o) ready_condition) e ∙ w ∙ rw (t, s) refl,
      set_condition-rest_of now v (summary (vcluster_getter v) summary_options),
    )

pub reconcile_phase-conditions :
    (v : VCluster) → (reconcile_phase v).status.conditions ≡ v.status.conditions
reconcile_phase-conditions v = elim (reconcile_phase-Verdict v) [
  | healthy a e ↦ ap (λ (w : VCluster). w.status.conditions) e
  | broken c i e ↦ ap (λ (w : VCluster). w.status.conditions) e
]

pub reconcile_phase-condition :
    (v : VCluster) (t : ConditionType)
    → condition_is_true (reconcile_phase v) t ≡ condition_is_true v t
reconcile_phase-condition v t =
    condition_is_true-find (reconcile_phase v) t
    ∙ ap (λ cs. status_is_true (find t cs)) (reconcile_phase-conditions v)
    ∙ sym (condition_is_true-find v t)

phase_of_running :
    (v : VCluster)
    → v.status.ready ≡ true
    → condition_is_true v control_plane_initialized_condition ≡ true
    → phase_of v ≡ virtual_cluster_deployed
phase_of_running v r c = rw (c, r) refl

-- Of an initialized object with at most one condition of each type, with KubeconfigReady,
-- ControlPlaneInitialized and HelmChartDeployed True and a ready status, the deferred function
-- makes one with a True Ready condition, whose phase is Deployed, or Failed where a condition
-- is False with severity Error.
pub set_summary-reconcile_phase :
    (now : Time) (v : VCluster)
    → Synced true v
    → v.status.ready ≡ true
    → (condition_is_true (set_summary now (reconcile_phase v) summary_options) ready_condition
        ≡ true)
      × (((set_summary now (reconcile_phase v) summary_options).status.phase ≡ (
          if exists is_error v.status.conditions
          then virtual_cluster_failed
          else virtual_cluster_deployed)))
unfolding rest_of
set_summary-reconcile_phase now v h ready =
    let c = h.initialized.checked in
    let (r, s) =
      set_summary-Ready now (reconcile_phase v) (rw (reconcile_phase-conditions v) c.sound.distinct)
        (reconcile_phase-condition v kubeconfig_ready_condition ∙ h.kubeconfig)
        (reconcile_phase-condition v control_plane_initialized_condition ∙ c.control_plane) in
    (
      r,
      ap (λ (w : VCluster). w.status.phase) s
          ∙ reconcile_phase-phase v
          ∙ ap (λ p. if exists is_error v.status.conditions then virtual_cluster_failed else p)
              (phase_of_running v ready c.control_plane),
    )
