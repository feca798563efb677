-- ===== src/Conditions/Summary.antt =====
-- The functions of pkg/util/conditions/getter.go that compute a condition, and those of setter.go
-- that write it to an object.
pub mod Scope
use cluster_api_provider_vcl.Base.{
  ℕ, String, Bool, true, false, not, Option, none, some, List, [], ◌∷◌, ◌==◌, map,
}
use cluster_api_provider_vcl.Base.Tests.{if◌then◌else◌}
use cluster_api_provider_vcl.Base.Lists.{length, exists}
use cluster_api_provider_vcl.Api.Condition.{
  Condition, Conditions, ConditionType, ConditionSeverity, Time, ready_condition,
}
use cluster_api_provider_vcl.Conditions.Getter.{Getter, get}
use cluster_api_provider_vcl.Conditions.Setter.{
  Setter, set_condition, true_condition, false_condition,
}
use cluster_api_provider_vcl.Conditions.Groups.{LocalizedCondition}
use cluster_api_provider_vcl.Conditions.Merge.{MergeOptions, MergeOption, apply_options, merge}

-- `mergeOptions{}`
abbrev pub no_options : MergeOptions
no_options = record {
  condition_types = none;
  add_source_ref = false;
  add_step_counter = false;
  add_step_counter_if_only_condition_types = none;
  step_counter = 0;
}

unfoldable pub member : ConditionType → List ConditionType → Bool
unfolding exists
member t ts = exists (λ u. t == u) ts

-- Is the condition of the loop's round in scope?
unfoldable pub in_scope : Option (List ConditionType) → ConditionType → Bool
unfolding member
in_scope types t =
    if t == ready_condition then false else elim types [ none ↦ true | some ts ↦ member t ts ]

unfoldable pub conditions_in_scope :
    Getter → Option (List ConditionType) → Conditions → List LocalizedCondition
unfolding in_scope
conditions_in_scope from types [] = []
conditions_in_scope from types (c ∷ cs) =
    let rest = conditions_in_scope from types cs in
    if in_scope types c.type then record { condition = c; source = from.source } ∷ rest else rest

-- The counter is dropped as soon as a condition in scope is outside the subset.
unfoldable pub restrict_counter : List LocalizedCondition → MergeOptions → MergeOptions
unfolding member
restrict_counter scope o = elim o.add_step_counter_if_only_condition_types [
  | none ↦ o
  | some ts ↦
      if exists (λ (c : LocalizedCondition). not (member c.condition.type ts)) scope
      then record o { add_step_counter = false }
      else o
]

abbrev length_or : Option (List ConditionType) → ℕ → ℕ
length_or none n = n
length_or (some ts) n = length ts

unfoldable pub count_steps : List LocalizedCondition → MergeOptions → MergeOptions
count_steps scope o =
    if o.add_step_counter
    then record o {
      step_counter =
          length_or o.add_step_counter_if_only_condition_types
            (length_or o.condition_types (length scope));
    }
    else o

unfoldable pub summary : Getter → List MergeOption → Option Condition
unfolding apply_options conditions_in_scope restrict_counter count_steps merge
summary from options =
    let o = apply_options options no_options in
    let scope = conditions_in_scope from o.condition_types from.conditions in
    merge (map some scope) ready_condition (count_steps scope (restrict_counter scope o))

pub record MirrorOptions : Type 0 where
  pub fallback_to : Option Bool
  pub fallback_reason : String
  pub fallback_severity : ConditionSeverity
  pub fallback_message : String

abbrev pub MirrorOption : Type 0
MirrorOption = MirrorOptions → MirrorOptions

unfoldable pub with_fallback_value : Bool → String → ConditionSeverity → String → MirrorOption
with_fallback_value value reason severity message c = record {
  fallback_to = some value;
  fallback_reason = reason;
  fallback_severity = severity;
  fallback_message = message;
}

unfoldable pub apply_mirror_options : List MirrorOption → MirrorOptions → MirrorOptions
apply_mirror_options [] m = m
apply_mirror_options (o ∷ os) m = apply_mirror_options os (o m)

abbrev pub no_mirror_options : MirrorOptions
no_mirror_options = record {
  fallback_to = none;
  fallback_reason = "";
  fallback_severity = "";
  fallback_message = "";
}

-- The condition that stands in for a missing one.
unfoldable pub fallback : ConditionType → MirrorOptions → Option Condition
unfolding true_condition false_condition
fallback target o = elim o.fallback_to [
  | none ↦ none
  | some true ↦ some (true_condition target)
  | some false ↦
      some (false_condition target o.fallback_reason o.fallback_severity o.fallback_message)
]

abbrev retarget : ConditionType → Option Condition → Option Condition
retarget target none = none
retarget target (some c) = some (record c { type = target })

unfoldable pub mirror : Getter → ConditionType → List MirrorOption → Option Condition
unfolding get fallback apply_mirror_options
mirror from target options =
    let o = apply_mirror_options options no_mirror_options in
    elim (get from ready_condition) [
      | none ↦ retarget target (fallback target o)
      | some c ↦ retarget target (some c)
    ]

abbrev localize : Getter → Option Condition → Option LocalizedCondition
localize from none = none
localize from (some c) = some (record { condition = c; source = from.source })

unfoldable pub ready_conditions : List Getter → List (Option LocalizedCondition)
unfolding get
ready_conditions [] = []
ready_conditions (g ∷ gs) = localize g (get g ready_condition) ∷ ready_conditions gs

unfoldable pub aggregate : List Getter → ConditionType → List MergeOption → Option Condition
unfolding ready_conditions apply_options merge
aggregate from target options =
    let start = record no_options { add_step_counter = true; step_counter = length from } in
    merge (ready_conditions from) target (apply_options options start)

module _ {A : Type 0} ⦃s : Setter A⦄ where
  unfoldable pub set_summary : Time → A → List MergeOption → A
  unfolding set_condition summary
  set_summary now to options = set_condition now to (summary (s.getter to) options)

  unfoldable pub set_mirror : Time → A → ConditionType → Getter → List MirrorOption → A
  unfolding set_condition mirror
  set_mirror now to target from options = set_condition now to (mirror from target options)

  unfoldable pub set_aggregate : Time → A → ConditionType → List Getter → List MergeOption → A
  unfolding set_condition aggregate
  set_aggregate now to target from options = set_condition now to (aggregate from target options)
