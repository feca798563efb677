-- ===== src/Conditions/Setter.antt =====
-- pkg/util/conditions/setter.go. `Set` writes the transition time into the condition that its
-- caller passes by pointer, so the condition comes back with the object.
pub mod Lookup
pub mod Order
pub mod Canonical
use cluster_api_provider_vcl.Base.{
  ℕ, ◌-◌, ◌%◌, String, Bool, ◌≡◌, not, ◌&&◌, ◌||◌, Option, none, some, List, [], ◌∷◌, ◌++◌, ◌==◌,
}
use cluster_api_provider_vcl.Base.Tests.{if◌then◌else◌, nat_eq}
use cluster_api_provider_vcl.Base.Lists.{keep}
use cluster_api_provider_vcl.Base.Text.{lt}
use cluster_api_provider_vcl.Base.Sort.{sort}
use cluster_api_provider_vcl.Api.Condition.{
  Condition, Conditions, ConditionType, ConditionSeverity, Time, ready_condition, condition_true,
  condition_false, condition_unknown,
}
use cluster_api_provider_vcl.Conditions.Getter.{Getter}

-- What `Set` asks of an object: the conditions that were set are those that are read, and
-- nothing else that the package reads changes.
pub record Setter (A : Type 0) : Type 0 where
  pub getter : A → Getter
  pub set_conditions : A → Conditions → A
  pub get-set : (a : A) (cs : Conditions) → (getter (set_conditions a cs)).conditions ≡ cs
  pub source-set :
      (a : A) (cs : Conditions) → (getter (set_conditions a cs)).source ≡ (getter a).source

-- `Truncate(time.Second)`: down to a multiple of a second since the zero time.
unfoldable pub truncate_second : Time → Time
truncate_second t = t - t % 1000000000

unfoldable pub lexicographic_less : Condition → Condition → Bool
lexicographic_less i j =
    (i.type == ready_condition || lt i.type j.type) && not (j.type == ready_condition)

unfoldable pub has_same_state : Condition → Condition → Bool
has_same_state i j =
    i.type == j.type
    && i.status == j.status
    && i.reason == j.reason
    && i.severity == j.severity
    && i.message == j.message

-- The loop of `Set`, which ends at the first condition of the type. `none`: there is none.
unfoldable pub replace : Time → Condition → Conditions → Option (Conditions × Condition)
replace now c [] = none
replace now c (e ∷ cs) =
    let rest : Option (Conditions × Condition) = elim (replace now c cs) [
      | none ↦ none
      | some (cs', c') ↦ some (e ∷ cs', c')
    ] in
    let changed : Condition = record c { last_transition_time = truncate_second now } in
    let kept : Condition = record c { last_transition_time = e.last_transition_time } in
    if e.type == c.type
    then (if not (has_same_state e c) then some (changed ∷ cs, changed) else some (e ∷ cs, kept))
    else rest

-- The branch of `Set` for a type that the object does not have.
unfoldable pub stamp : Time → Condition → Condition
stamp now c =
    if nat_eq c.last_transition_time 0
    then record c { last_transition_time = truncate_second now }
    else c

-- `Set` on the conditions alone.
unfoldable pub set : Time → Conditions → Condition → Conditions × Condition
unfolding replace stamp
set now cs c = elim (replace now c cs) [
  | none ↦ (sort lexicographic_less (cs ++ stamp now c ∷ []), stamp now c)
  | some (cs', c') ↦ (sort lexicographic_less cs', c')
]

unfoldable pub true_condition : ConditionType → Condition
true_condition t = record {
  type = t;
  status = condition_true;
  severity = "";
  last_transition_time = 0;
  reason = "";
  message = "";
}

-- The message is the formatted one, here and below.
unfoldable pub false_condition : ConditionType → String → ConditionSeverity → String → Condition
false_condition t reason severity message = record {
  type = t;
  status = condition_false;
  severity = severity;
  last_transition_time = 0;
  reason = reason;
  message = message;
}

unfoldable pub unknown_condition : ConditionType → String → String → Condition
unknown_condition t reason message = record {
  type = t;
  status = condition_unknown;
  severity = "";
  last_transition_time = 0;
  reason = reason;
  message = message;
}

-- `Delete` on the conditions alone.
unfoldable pub delete : Conditions → ConditionType → Conditions
unfolding keep
delete cs t = keep (λ c. not (c.type == t)) cs

module _ {A : Type 0} ⦃s : Setter A⦄ where
  -- `Set` on an object; a nil condition changes nothing.
  unfoldable pub set_condition : Time → A → Option Condition → A
  unfolding set
  set_condition now to none = to
  set_condition now to (some c) = s.set_conditions to (set now (s.getter to).conditions c).0

  unfoldable pub mark_true : Time → A → ConditionType → A
  unfolding set_condition true_condition
  mark_true now to t = set_condition now to (some (true_condition t))

  unfoldable pub mark_unknown : Time → A → ConditionType → String → String → A
  unfolding set_condition unknown_condition
  mark_unknown now to t reason message =
      set_condition now to (some (unknown_condition t reason message))

  unfoldable pub mark_false : Time → A → ConditionType → String → ConditionSeverity → String → A
  unfolding set_condition false_condition
  mark_false now to t reason severity message =
      set_condition now to (some (false_condition t reason severity message))

  unfoldable pub delete_condition : A → ConditionType → A
  unfolding delete
  delete_condition to t = s.set_conditions to (delete (s.getter to).conditions t)
