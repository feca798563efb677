-- ===== src/Tests/OfConditions.antt =====
-- The theorems on pkg/util/conditions, on concrete conditions.
use mathlib.Core.List.{Perm}
use cluster_api_provider_vcl.Base.{
  ◌≡◌, ◌≢◌, refl, true, Option, none, some, List, [], ◌∷◌, ◌==◌, arith, ◌⊎◌, eq_iff,
}
use cluster_api_provider_vcl.Base.Tests.{if◌then◌else◌}
use cluster_api_provider_vcl.Api.Condition.{Condition, ConditionType}
use cluster_api_provider_vcl.Conditions.Getter.{Getter, find}
use cluster_api_provider_vcl.Conditions.Distinct.{Distinct}
use cluster_api_provider_vcl.Conditions.Setter.{set}
use cluster_api_provider_vcl.Conditions.Setter.Lookup.{written, find-set, set-Distinct}
use cluster_api_provider_vcl.Conditions.Setter.Canonical.{set_comm}
use cluster_api_provider_vcl.Conditions.Groups.{LocalizedCondition, get_condition_groups}
use cluster_api_provider_vcl.Conditions.Groups.Partition.{
  members, present, get_condition_groups-perm,
}
use cluster_api_provider_vcl.Conditions.Merge.{with_conditions, merge}
use cluster_api_provider_vcl.Conditions.Merge.Verdict.{IsBest, Decides, merge-Decides}
use cluster_api_provider_vcl.Conditions.Summary.{no_options, in_scope, member, summary}
use cluster_api_provider_vcl.Conditions.Summary.Scope.{summary-true}
use cluster_api_provider_vcl.Tests.Fixtures.{
  kubeconfig_true, chart_failed, check_failed, two_conditions, from_vcluster,
}

pub two_conditions-Distinct : Distinct two_conditions
unfolding find
two_conditions-Distinct = (refl, (refl, tt))

find-set_example : find "KubeconfigReady" (set 9000000001 two_conditions chart_failed).0 ≡ (
    if "HelmChartDeployed" == "KubeconfigReady"
    then some (written 9000000001 (find "HelmChartDeployed" two_conditions) chart_failed)
    else find "KubeconfigReady" two_conditions)
find-set_example =
    find-set 9000000001 two_conditions chart_failed "KubeconfigReady" two_conditions-Distinct

types_differ : chart_failed.type ≢ check_failed.type
types_differ e = ground (arith, eq_iff "HelmChartDeployed" "KubeconfigReady")

set_comm_example :
    (set 2000000000 (set 1000000000 two_conditions chart_failed).0 check_failed).0
    ≡ (set 1000000000 (set 2000000000 two_conditions check_failed).0 chart_failed).0
set_comm_example =
    set_comm 1000000000 2000000000 two_conditions chart_failed check_failed two_conditions-Distinct
      types_differ

-- Two conditions, and one that is nil.
abbrev pub located : List (Option LocalizedCondition)
located = some (from_vcluster check_failed) ∷ none ∷ some (from_vcluster chart_failed) ∷ []

set-Distinct_example : Distinct (set 9000000001 two_conditions chart_failed).0
set-Distinct_example = set-Distinct 9000000001 two_conditions chart_failed two_conditions-Distinct

get_condition_groups-perm_example : Perm (members (get_condition_groups located)) (present located)
get_condition_groups-perm_example = get_condition_groups-perm located

merge-Decides_example :
    ((merge located "Ready" no_options ≡ none) × (present located ≡ []))
    ⊎ ((c : LocalizedCondition) × (r : Condition) × IsBest c (present located)
        × (merge located "Ready" no_options ≡ some r)
        × Decides c "Ready" r)
merge-Decides_example = merge-Decides located "Ready" no_options

abbrev healthy_getter : Getter
healthy_getter = record {
  source = record { kind = "VCluster"; name = "a" };
  conditions = chart_failed ∷ kubeconfig_true ∷ [];
}

healthy-Distinct : Distinct healthy_getter.conditions
unfolding find
healthy-Distinct = (refl, (refl, tt))

kubeconfig_in_scope : in_scope (some ("KubeconfigReady" ∷ [])) "KubeconfigReady" ≡ true
unfolding in_scope member
kubeconfig_in_scope = refl

healthy_found : find "KubeconfigReady" healthy_getter.conditions ≡ some kubeconfig_true
unfolding find
healthy_found = refl

healthy_scope :
    (u : ConditionType) (d : Condition)
    → in_scope (some ("KubeconfigReady" ∷ [])) u ≡ true
    → find u healthy_getter.conditions ≡ some d
    → d.status ≡ "True"
unfolding in_scope member find
healthy_scope u d s f = ground (
  arith,
  eq_iff u "KubeconfigReady",
  eq_iff "KubeconfigReady" u,
  eq_iff "HelmChartDeployed" u,
  eq_iff "HelmChartDeployed" "KubeconfigReady",
)

summary-true_example :
    (r : Condition) × (summary healthy_getter (with_conditions (some ("KubeconfigReady" ∷ [])) ∷ [])
      ≡ some r)
    × (r.type ≡ "Ready")
    × (r.status ≡ "True")
summary-true_example =
    summary-true healthy_getter ("KubeconfigReady" ∷ []) "KubeconfigReady" kubeconfig_true
      healthy-Distinct kubeconfig_in_scope healthy_found healthy_scope
