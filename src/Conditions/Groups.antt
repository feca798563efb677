-- ===== src/Conditions/Groups.antt =====
-- pkg/util/conditions/merge.go: conditions grouped by status and severity, in order of priority.
pub mod Partition
pub mod Priority
pub mod Sizes
use cluster_api_provider_vcl.Base.{
  ℕ, ◌<◌, String, Bool, true, false, not, ◌&&◌, Option, none, some, List, [], ◌∷◌, ◌++◌, ◌==◌,
}
use Prim.Native.String.{◌++◌ as append}
use text.Mathlib.Text.{find? as index_of}
use cluster_api_provider_vcl.Base.Tests.{if◌then◌else◌, ltb, is_some}
use cluster_api_provider_vcl.Base.Lists.{length}
use cluster_api_provider_vcl.Base.Text.{lt}
use cluster_api_provider_vcl.Base.Sort.{sort}
use cluster_api_provider_vcl.Base.Decimal.{decimal}
use cluster_api_provider_vcl.Api.Condition.{
  Condition, ConditionType, ConditionStatus, ConditionSeverity, condition_true, condition_false,
  condition_unknown, severity_error, severity_warning, severity_info, severity_none,
}
use cluster_api_provider_vcl.Conditions.Getter.{Source}
use cluster_api_provider_vcl.Conditions.Setter.{
  lexicographic_less, true_condition, false_condition, unknown_condition,
}

-- A condition with the object that it came from, of which only the kind and the name are read.
-- The code keeps some whose condition is nil; such a one is `none` in the lists below, since its
-- object is never looked at.
pub record LocalizedCondition : Type 0 where
  pub condition : Condition
  pub source : Source

pub record ConditionGroup : Type 0 where
  pub status : ConditionStatus
  pub severity : ConditionSeverity
  pub conditions : List LocalizedCondition

unfoldable pub merge_priority : ConditionGroup → ℕ
merge_priority g =
    if g.status == condition_false
    then (if g.severity == severity_error
        then 0
        else if g.severity == severity_warning
        then 1
        else if g.severity == severity_info
        then 2
        else if g.severity == severity_none
        then 10
        else 99)
    else if g.status == condition_true
    then 3
    else if g.status == condition_unknown
    then 4
    else 99

-- The inner loop of `getConditionGroups`, with the append for a new group.
unfoldable pub add_to_groups : LocalizedCondition → List ConditionGroup → List ConditionGroup
add_to_groups c [] =
    record { status = c.condition.status; severity = c.condition.severity; conditions = c ∷ [] }
    ∷ []
add_to_groups c (g ∷ gs) =
    let rest = add_to_groups c gs in
    if g.status == c.condition.status && g.severity == c.condition.severity
    then record g { conditions = g.conditions ++ c ∷ [] } ∷ gs
    else g ∷ rest

-- The outer loop, over the groups so far.
unfoldable pub group_all :
    List (Option LocalizedCondition) → List ConditionGroup → List ConditionGroup
unfolding add_to_groups
group_all [] gs = gs
group_all (none ∷ cs) gs = group_all cs gs
group_all (some c ∷ cs) gs = group_all cs (add_to_groups c gs)

unfoldable pub group_less : ConditionGroup → ConditionGroup → Bool
unfolding merge_priority
group_less g h = ltb (merge_priority g) (merge_priority h)

-- The order within the top group.
unfoldable pub localized_less : LocalizedCondition → LocalizedCondition → Bool
unfolding lexicographic_less lt
localized_less a b =
    if not (a.condition.type == b.condition.type)
    then lexicographic_less a.condition b.condition
    else lt a.source.name b.source.name

unfoldable pub sort_top : List ConditionGroup → List ConditionGroup
unfolding localized_less sort
sort_top [] = []
sort_top (g ∷ gs) = record g { conditions = sort localized_less g.conditions } ∷ gs

unfoldable pub get_condition_groups : List (Option LocalizedCondition) → List ConditionGroup
unfolding group_all group_less sort_top sort
get_condition_groups cs = sort_top (sort group_less (group_all cs []))

unfoldable pub get_by_status_and_severity :
    List ConditionGroup → ConditionStatus → ConditionSeverity → Option ConditionGroup
get_by_status_and_severity [] st sev = none
get_by_status_and_severity (g ∷ gs) st sev =
    if g.status == st && g.severity == sev then some g else get_by_status_and_severity gs st sev

abbrev pub top_group : List ConditionGroup → Option ConditionGroup
top_group [] = none
top_group (g ∷ gs) = some g

unfoldable pub true_group : List ConditionGroup → Option ConditionGroup
unfolding get_by_status_and_severity
true_group gs = get_by_status_and_severity gs condition_true severity_none

unfoldable pub error_group : List ConditionGroup → Option ConditionGroup
unfolding get_by_status_and_severity
error_group gs = get_by_status_and_severity gs condition_false severity_error

unfoldable pub warning_group : List ConditionGroup → Option ConditionGroup
unfolding get_by_status_and_severity
warning_group gs = get_by_status_and_severity gs condition_false severity_warning
