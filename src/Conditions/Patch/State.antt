-- ===== src/Conditions/Patch/State.antt =====
-- The state of a condition is all but its transition time. What each operation of a patch does to
-- the state that a reader finds.
use cluster_api_provider_vcl.Base.{
  ◌≡◌, sym, ap, true, Option, none, some, arith, ◌==◌, eq_iff, inl, inr,
}
use cluster_api_provider_vcl.Base.Tests.{if◌then◌else◌, Option-cases}
use cluster_api_provider_vcl.Api.Condition.{Condition, Conditions, ConditionType, Time}
use cluster_api_provider_vcl.Conditions.Getter.{find}
use cluster_api_provider_vcl.Conditions.Distinct.{Distinct}
use cluster_api_provider_vcl.Conditions.Setter.{has_same_state, stamp, set, delete}
use cluster_api_provider_vcl.Conditions.Setter.Lookup.{
  written, find-set, set-Distinct, find-delete, delete-Distinct, same_state-eq,
}
use cluster_api_provider_vcl.Conditions.Patch.{
  PatchOperation, add_condition_patch, change_condition_patch, remove_condition_patch, ApplyOptions,
  apply_operation,
}

abbrev pub untimed : Condition → Condition
untimed c = record c { last_transition_time = 0 }

abbrev pub state : Option Condition → Option Condition
state none = none
state (some c) = some (untimed c)

-- The state under a type, as a reader finds it.
unfoldable pub state_at : ConditionType → Conditions → Option Condition
state_at t cs = state (find t cs)

pub untimed_of_same : (a b : Condition) → has_same_state a b ≡ true → untimed a ≡ untimed b
untimed_of_same a b h = ap untimed (sym (same_state-eq a b h))

pub untimed-written :
    (now : Time) (o : Option Condition) (c : Condition) → untimed (written now o c) ≡ untimed c
unfolding written stamp
untimed-written now none c = ground arith
untimed-written now (some e) c = ground (arith, untimed_of_same e c)

state_at-set :
    (now : Time) (cs : Conditions) (c : Condition) (t : ConditionType)
    → Distinct cs
    → state_at t (set now cs c).0 ≡ (if c.type == t then some (untimed c) else state_at t cs)
unfolding state_at
state_at-set now cs c t d =
    ground (arith, find-set now cs c t d, untimed-written now (find c.type cs) c)

state_at-delete :
    (cs : Conditions) (u t : ConditionType)
    → state_at t (delete cs u) ≡ (if u == t then none else state_at t cs)
unfolding state_at
state_at-delete cs u t = ground (arith, find-delete cs u t)

-- The type that an operation is about, and the state that it is to bring about.
abbrev pub target_type : PatchOperation → ConditionType
target_type (add_condition_patch after) = after.type
target_type (change_condition_patch after before) = after.type
target_type (remove_condition_patch before) = before.type

abbrev pub target_state : PatchOperation → Option Condition
target_state (add_condition_patch after) = some (untimed after)
target_state (change_condition_patch after before) = some (untimed after)
target_state (remove_condition_patch before) = none

-- What is found already in the state is in the state.
state_at_same :
    (cs : Conditions) (l c : Condition) (t : ConditionType)
    → find c.type cs ≡ some l
    → has_same_state l c ≡ true
    → state_at t cs ≡ (if c.type == t then some (untimed c) else state_at t cs)
unfolding state_at
state_at_same cs l c t e h = ground (arith, untimed_of_same l c, eq_iff c.type t)

module _ (now : Time) (o : ApplyOptions) (cs : Conditions) (d : Distinct cs) where
  pub operation-Distinct : (op : PatchOperation) → Distinct (apply_operation now o cs op).latest
  unfolding apply_operation
  operation-Distinct (add_condition_patch after) = ground (arith, set-Distinct now cs after d)
  operation-Distinct (change_condition_patch after before) =
      ground (arith, set-Distinct now cs after d)
  operation-Distinct (remove_condition_patch before) =
      ground (arith, delete-Distinct cs before.type d)

  -- An operation that succeeds brings its type to its target, and leaves every other type alone.
  pub operation_effect :
      (op : PatchOperation) (t : ConditionType)
      → (apply_operation now o cs op).error ≡ none
      → state_at t (apply_operation now o cs op).latest
        ≡ (if target_type op == t then target_state op else state_at t cs)
  unfolding apply_operation
  operation_effect (add_condition_patch after) t h = elim (Option-cases (find after.type cs)) [
    | inl e ↦ ground (arith, state_at-set now cs after t d)
    | inr (l, e) ↦ ground (arith, state_at-set now cs after t d, state_at_same cs l after t e)
  ]
  operation_effect (change_condition_patch after before) t h =
      elim (Option-cases (find after.type cs)) [
        | inl e ↦ ground (arith, state_at-set now cs after t d)
        | inr (l, e) ↦ ground (arith, state_at-set now cs after t d, state_at_same cs l after t e)
      ]
  operation_effect (remove_condition_patch before) t h = elim (Option-cases (find before.type cs)) [
    | inl e ↦ ground (arith, state_at-delete cs before.type t)
    | inr (l, e) ↦ ground (arith, state_at-delete cs before.type t)
  ]
