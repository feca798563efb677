-- ===== src/Api/Condition.antt =====
-- api/v1alpha1/condition_types.go. Strings that Go wraps in named types stay strings.
use cluster_api_provider_vcl.Base.{ℕ, String, List}

abbrev pub ConditionType : Type 0
ConditionType = String

abbrev pub ready_condition : ConditionType
ready_condition = "Ready"

abbrev pub control_plane_initialized_condition : ConditionType
control_plane_initialized_condition = "ControlPlaneInitialized"

abbrev pub kubeconfig_ready_condition : ConditionType
kubeconfig_ready_condition = "KubeconfigReady"

abbrev pub helm_chart_deployed_condition : ConditionType
helm_chart_deployed_condition = "HelmChartDeployed"

abbrev pub ConditionSeverity : Type 0
ConditionSeverity = String

abbrev pub severity_error : ConditionSeverity
severity_error = "Error"

abbrev pub severity_warning : ConditionSeverity
severity_warning = "Warning"

abbrev pub severity_info : ConditionSeverity
severity_info = "Info"

abbrev pub severity_none : ConditionSeverity
severity_none = ""

-- The constants of k8s.io/api/core/v1, which is not part of the repository.
abbrev pub ConditionStatus : Type 0
ConditionStatus = String

abbrev pub condition_true : ConditionStatus
condition_true = "True"

abbrev pub condition_false : ConditionStatus
condition_false = "False"

abbrev pub condition_unknown : ConditionStatus
condition_unknown = "Unknown"

-- A `metav1.Time`, in nanoseconds since Go's zero time, which is 0.
abbrev pub Time : Type 0
Time = ℕ

pub record Condition : Type 0 where
  pub type : ConditionType
  pub status : ConditionStatus
  pub severity : ConditionSeverity
  pub last_transition_time : Time
  pub reason : String
  pub message : String

-- The nil slice and the empty one are both `[]`: the code never tells them apart.
abbrev pub Conditions : Type 0
Conditions = List Condition
