-- ===== src/Conditions/Merge.antt =====
-- pkg/util/conditions/merge_strategies.go, and `merge` of merge.go: one condition out of many.
pub mod Verdict
pub mod Truth
use cluster_api_provider_vcl.Base.{ℕ, String, Bool, true, Option, none, some, List, [], ◌∷◌, ◌==◌}
use Prim.Native.String.{◌++◌ as append}
use text.Mathlib.Text.{find? as index_of}
use cluster_api_provider_vcl.Base.Tests.{if◌then◌else◌, is_some}
use cluster_api_provider_vcl.Base.Lists.{length}
use cluster_api_provider_vcl.Base.Decimal.{decimal}
use cluster_api_provider_vcl.Api.Condition.{
  Condition, ConditionType, condition_true, condition_false,
}
use cluster_api_provider_vcl.Conditions.Getter.{Source}
use cluster_api_provider_vcl.Conditions.Setter.{true_condition, false_condition, unknown_condition}
use cluster_api_provider_vcl.Conditions.Groups.{
  LocalizedCondition, ConditionGroup, get_condition_groups, true_group,
}

-- A slice that may be nil is an option here: the code asks for nil, not for the length.
pub record MergeOptions : Type 0 where
  pub condition_types : Option (List ConditionType)
  pub add_source_ref : Bool
  pub add_step_counter : Bool
  pub add_step_counter_if_only_condition_types : Option (List ConditionType)
  pub step_counter : ℕ

abbrev pub MergeOption : Type 0
MergeOption = MergeOptions → MergeOptions

unfoldable pub with_conditions : Option (List ConditionType) → MergeOption
with_conditions t c = record c { condition_types = t }

unfoldable pub with_step_counter : MergeOption
with_step_counter c = record c { add_step_counter = true }

unfoldable pub with_step_counter_if : Bool → MergeOption
with_step_counter_if value c = record c { add_step_counter = value }

unfoldable pub with_step_counter_if_only : Option (List ConditionType) → MergeOption
with_step_counter_if_only t c = record c { add_step_counter_if_only_condition_types = t }

unfoldable pub with_source_ref : MergeOption
with_source_ref c = record c { add_source_ref = true }

unfoldable pub apply_options : List MergeOption → MergeOptions → MergeOptions
apply_options [] m = m
apply_options (o ∷ os) m = apply_options os (o m)

-- A nil slice ranges over nothing.
abbrev pub or_empty : Option (List ConditionType) → List ConditionType
or_empty none = []
or_empty (some ts) = ts

unfoldable pub first_of_type : ConditionType → List LocalizedCondition → Option LocalizedCondition
first_of_type p [] = none
first_of_type p (c ∷ cs) = if c.condition.type == p then some c else first_of_type p cs

-- The two loops of `getFirstCondition`: by priority, then by the order of the group.
unfoldable pub first_by_priority :
    List ConditionType → List LocalizedCondition → Option LocalizedCondition
unfolding first_of_type
first_by_priority [] cs = none
first_by_priority (p ∷ ps) cs = elim (first_of_type p cs) [
  | some c ↦ some c
  | none ↦ first_by_priority ps cs
]

unfoldable pub first_in_group :
    List LocalizedCondition → List ConditionType → Option LocalizedCondition
unfolding first_by_priority
first_in_group [] priority = none
first_in_group (c ∷ []) priority = some c
first_in_group (c ∷ d ∷ cs) priority = elim (first_by_priority priority (c ∷ d ∷ cs)) [
  | some x ↦ some x
  | none ↦ some c
]

unfoldable pub get_first_condition :
    List ConditionGroup → List ConditionType → Option LocalizedCondition
unfolding first_in_group
get_first_condition [] priority = none
get_first_condition (g ∷ gs) priority = first_in_group g.conditions priority

unfoldable pub localize_reason : String → Source → String
localize_reason reason from =
    if is_some (index_of reason "@")
    then reason
    else append reason (append " @ " (append from.kind (append "/" from.name)))

unfoldable pub get_first_reason : List ConditionGroup → List ConditionType → Bool → String
unfolding get_first_condition localize_reason
get_first_reason gs order add_source_ref = elim (get_first_condition gs order) [
  | none ↦ ""
  | some c ↦
      if add_source_ref then localize_reason c.condition.reason c.source else c.condition.reason
]

unfoldable pub get_reason : List ConditionGroup → MergeOptions → String
unfolding get_first_reason
get_reason gs options =
    get_first_reason gs (or_empty options.condition_types) options.add_source_ref

-- The number of conditions that the step counter calls completed.
unfoldable pub completed : List ConditionGroup → ℕ
unfolding true_group
completed gs = elim (true_group gs) [ none ↦ 0 | some g ↦ length g.conditions ]

unfoldable pub get_step_counter_message : List ConditionGroup → ℕ → String
unfolding completed decimal
get_step_counter_message gs to =
    append (decimal (completed gs)) (append " of " (append (decimal to) " completed"))

unfoldable pub get_first_message : List ConditionGroup → List ConditionType → String
unfolding get_first_condition
get_first_message gs order = elim (get_first_condition gs order) [
  | none ↦ ""
  | some c ↦ c.condition.message
]

unfoldable pub get_message : List ConditionGroup → MergeOptions → String
unfolding get_step_counter_message get_first_message
get_message gs options =
    if options.add_step_counter
    then get_step_counter_message gs options.step_counter
    else get_first_message gs (or_empty options.condition_types)

-- `merge` on the groups, which it reads by their top group.
unfoldable pub merge_groups : List ConditionGroup → ConditionType → MergeOptions → Option Condition
unfolding get_reason get_message true_condition false_condition unknown_condition
merge_groups [] target options = none
merge_groups (g ∷ gs) target options =
    let reason = get_reason (g ∷ gs) options in
    let message = get_message (g ∷ gs) options in
    if g.status == condition_true
    then some (true_condition target)
    else if g.status == condition_false
    then some (false_condition target reason g.severity message)
    else some (unknown_condition target reason message)

unfoldable pub merge :
    List (Option LocalizedCondition) → ConditionType → MergeOptions → Option Condition
unfolding get_condition_groups merge_groups
merge conditions target options = merge_groups (get_condition_groups conditions) target options
