-- ===== src/Conditions/Getter.antt =====
-- pkg/util/conditions/getter.go: the nil-safe readers. An object is seen as the `Getter`
-- interface shows it: its kind, its name and its conditions.
use cluster_api_provider_vcl.Base.{String, Bool, true, false, Option, none, some, [], ◌∷◌, ◌==◌}
use cluster_api_provider_vcl.Base.Tests.{if◌then◌else◌, is_some}
use cluster_api_provider_vcl.Api.Condition.{
  Condition, Conditions, ConditionType, ConditionSeverity, Time, condition_true, condition_false,
  condition_unknown,
}

pub record Source : Type 0 where
  pub kind : String
  pub name : String

pub record Getter : Type 0 where
  pub source : Source
  pub open source use *
  pub conditions : Conditions

-- The loop of `Get`, over the conditions of the object.
unfoldable pub find : ConditionType → Conditions → Option Condition
find t [] = none
find t (c ∷ cs) = if c.type == t then some c else find t cs

unfoldable pub get : Getter → ConditionType → Option Condition
get from t = find t from.conditions

unfoldable pub has : Getter → ConditionType → Bool
unfolding get
has from t = is_some (get from t)

unfoldable pub is_true : Getter → ConditionType → Bool
unfolding get
is_true from t = elim (get from t) [ none ↦ false | some c ↦ c.status == condition_true ]

unfoldable pub is_false : Getter → ConditionType → Bool
unfolding get
is_false from t = elim (get from t) [ none ↦ false | some c ↦ c.status == condition_false ]

unfoldable pub is_unknown : Getter → ConditionType → Bool
unfolding get
is_unknown from t = elim (get from t) [ none ↦ true | some c ↦ c.status == condition_unknown ]

unfoldable pub get_reason : Getter → ConditionType → String
unfolding get
get_reason from t = elim (get from t) [ none ↦ "" | some c ↦ c.reason ]

unfoldable pub get_message : Getter → ConditionType → String
unfolding get
get_message from t = elim (get from t) [ none ↦ "" | some c ↦ c.message ]

unfoldable pub get_severity : Getter → ConditionType → Option ConditionSeverity
unfolding get
get_severity from t = elim (get from t) [ none ↦ none | some c ↦ some c.severity ]

unfoldable pub get_last_transition_time : Getter → ConditionType → Option Time
unfolding get
get_last_transition_time from t = elim (get from t) [
  | none ↦ none
  | some c ↦ some c.last_transition_time
]
