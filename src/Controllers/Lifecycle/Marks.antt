-- ===== src/Controllers/Lifecycle/Marks.antt =====
-- Once the status says that the control plane is initialized, it goes on saying so.
use cluster_api_provider_vcl.Base.{◌≡◌, ◌∙◌, refl, sym, ap, true, String, inl, inr, none, ◌==◌}
use cluster_api_provider_vcl.Base.Tests.{if◌then◌else◌, Bool-cases}
use cluster_api_provider_vcl.Conditions.Getter.{find}
use cluster_api_provider_vcl.Controllers.Kubeconfig.{set_initialized}
use cluster_api_provider_vcl.Controllers.Host.{write_host}
use cluster_api_provider_vcl.Api.Condition.{
  ConditionType, Time, control_plane_initialized_condition, kubeconfig_ready_condition,
  helm_chart_deployed_condition, severity_error, severity_warning,
}
use cluster_api_provider_vcl.Api.VCluster.{VCluster}
use cluster_api_provider_vcl.Conditions.Setter.{set_condition}
use cluster_api_provider_vcl.Conditions.Summary.{summary, set_summary}
use cluster_api_provider_vcl.Controllers.State.{vcluster_getter, vcluster_setter, condition_is_true}
use cluster_api_provider_vcl.Controllers.Writes.{
  status_is_true, condition_is_true-find, mark_true-is_true, mark_false-is_true,
  delete_condition-is_true, set_condition-is_true, mark_true-HasDistinct, mark_false-HasDistinct,
  delete_condition-HasDistinct, set_condition-HasDistinct, rest_of, mark_true-rest_of,
  mark_false-rest_of, delete_condition-rest_of, set_condition-rest_of,
}
use cluster_api_provider_vcl.Controllers.Reconcile.{summary_options, set_ready}
use cluster_api_provider_vcl.Controllers.Reconcile.Converges.{summary-type}
use cluster_api_provider_vcl.Controllers.Reconcile.Survives.{Survives}
use cluster_api_provider_vcl.Controllers.Reconcile.Persists.{Persists}
use cluster_api_provider_vcl.Controllers.Lifecycle.{IsChecked, HasFlag}

-- The object with the conditions of another one.
pub IsChecked-like :
    (v u : VCluster) → u.status.conditions ≡ v.status.conditions → IsChecked v → IsChecked u
IsChecked-like v u e h = (
  rw e h.0,
  condition_is_true-find u control_plane_initialized_condition
      ∙ ap (λ cs. status_is_true (find control_plane_initialized_condition cs)) e
      ∙ sym (condition_is_true-find v control_plane_initialized_condition)
      ∙ h.1,
)

marked_still :
    (t : ConditionType) (v : VCluster)
    → condition_is_true v control_plane_initialized_condition ≡ true
    → (if t == control_plane_initialized_condition
        then true
        else condition_is_true v control_plane_initialized_condition)
      ≡ true
marked_still t v h = elim (Bool-cases (t == control_plane_initialized_condition)) [
  | inl e ↦ rw e refl
  | inr e ↦ rw e h
]

set_initialized-conditions :
    (v : VCluster) → (set_initialized v).status.conditions ≡ v.status.conditions
unfolding set_initialized
set_initialized-conditions v = refl

write_host-conditions :
    (host : String) (v : VCluster) → (write_host host v).status.conditions ≡ v.status.conditions
unfolding write_host
write_host-conditions host v = refl

IsChecked-Survives : Survives IsChecked
IsChecked-Survives = record {
  marked = λ now v t w h. (
    mark_true-HasDistinct now v t h.0,
    mark_true-is_true now v t control_plane_initialized_condition h.0 ∙ marked_still t v h.1,
  );
  failed = λ now v message h. (
    mark_false-HasDistinct now v helm_chart_deployed_condition "HelmDeployFailed" severity_error
        message h.0,
    mark_false-is_true now v helm_chart_deployed_condition "HelmDeployFailed" severity_error message
          control_plane_initialized_condition h.0
        ∙ h.1,
  );
  unchecked = λ now v message h. (
    mark_false-HasDistinct now v kubeconfig_ready_condition "CheckFailed" severity_warning message
        h.0,
    mark_false-is_true now v kubeconfig_ready_condition "CheckFailed" severity_warning message
          control_plane_initialized_condition h.0
        ∙ h.1,
  );
  deleted = λ v h. (
    delete_condition-HasDistinct v kubeconfig_ready_condition h.0,
    delete_condition-is_true v kubeconfig_ready_condition control_plane_initialized_condition ∙ h.1,
  );
  initialized = λ v h. IsChecked-like v (set_initialized v) (set_initialized-conditions v) h;
  hosted = λ host v h. IsChecked-like v (write_host host v) (write_host-conditions host v) h;
  ready = λ b v h. IsChecked-like v (set_ready b v) refl h;
}

unset :
    (now : Time) (v : VCluster)
    → condition_is_true v control_plane_initialized_condition ≡ true
    → condition_is_true (set_condition now v none) control_plane_initialized_condition ≡ true
unfolding set_condition
unset now v h = h

-- The summary is written as a Ready condition.
set_summary-IsChecked :
    (now : Time) (v : VCluster) → IsChecked v → IsChecked (set_summary now v summary_options)
unfolding set_summary vcluster_setter
set_summary-IsChecked now v h = (
  set_condition-HasDistinct now v (summary (vcluster_getter v) summary_options) h.0,
  elim (summary-type (vcluster_getter v) summary_options) [
    | inl e ↦
        ap (λ o. condition_is_true (set_condition now v o) control_plane_initialized_condition) e
        ∙ unset now v h.1
    | inr (r, e, t) ↦
        ap (λ o. condition_is_true (set_condition now v o) control_plane_initialized_condition) e
        ∙ set_condition-is_true now v r control_plane_initialized_condition h.0
        ∙ rw t h.1
  ],
)

pub IsChecked-Persists : Persists IsChecked
IsChecked-Persists = record {
  survives = IsChecked-Survives;
  like = λ v u l h. IsChecked-like v u l.conditions h;
  summarized = set_summary-IsChecked;
}

-- The flag is no condition.
HasFlag-rest_of : (v u : VCluster) → rest_of u ≡ rest_of v → HasFlag v → HasFlag u
unfolding rest_of
HasFlag-rest_of v u e h = ap (λ (x : VCluster). x.status.initialized) e ∙ h

HasFlag-Survives : Survives HasFlag
unfolding set_initialized write_host
HasFlag-Survives = record {
  marked = λ now v t w h. HasFlag-rest_of v _ (mark_true-rest_of now v t) h;
  failed = λ now v message h.
      HasFlag-rest_of v _
        (mark_false-rest_of now v helm_chart_deployed_condition "HelmDeployFailed" severity_error
          message)
        h;
  unchecked = λ now v message h.
      HasFlag-rest_of v _
        (mark_false-rest_of now v kubeconfig_ready_condition "CheckFailed" severity_warning message)
        h;
  deleted = λ v h. HasFlag-rest_of v _ (delete_condition-rest_of v kubeconfig_ready_condition) h;
  initialized = λ v h. refl;
  hosted = λ host v h. h;
  ready = λ b v h. h;
}

set_summary-HasFlag :
    (now : Time) (v : VCluster) → HasFlag v → HasFlag (set_summary now v summary_options)
unfolding set_summary vcluster_setter
set_summary-HasFlag now v h =
    HasFlag-rest_of v _ (set_condition-rest_of now v (summary (vcluster_getter v) summary_options))
      h

pub HasFlag-Persists : Persists HasFlag
HasFlag-Persists = record {
  survives = HasFlag-Survives;
  like = λ v u l h. l.initialized ∙ h;
  summarized = set_summary-HasFlag;
}
