-- ===== src/Conditions/Patch/Expected.antt =====
-- Operations on a list of conditions that is as they expect it.
use cluster_api_provider_vcl.Base.{
  ◌≡◌, refl, ◌∙◌, true, false, none, some, List, [], ◌∷◌, arith, ◌==◌, eq_refl,
}
use cluster_api_provider_vcl.Base.Lists.{All}
use cluster_api_provider_vcl.Api.Condition.{Condition, Conditions, ConditionType, Time}
use cluster_api_provider_vcl.Conditions.Getter.{find}
use cluster_api_provider_vcl.Conditions.Distinct.{Distinct}
use cluster_api_provider_vcl.Conditions.Setter.{has_same_state}
use cluster_api_provider_vcl.Conditions.Setter.Lookup.{find-set, find-delete}
use cluster_api_provider_vcl.Conditions.Patch.{
  PatchOperation, add_condition_patch, change_condition_patch, remove_condition_patch, deep_equal,
  ApplyOptions, apply_operation, apply_loop,
}
use cluster_api_provider_vcl.Conditions.Patch.State.{target_type, operation-Distinct}

pub deep_equal_self : (c : Condition) → deep_equal c c ≡ true
unfolding deep_equal has_same_state
deep_equal_self c = ground (
  arith,
  eq_refl c.type,
  eq_refl c.status,
  eq_refl c.reason,
  eq_refl c.severity,
  eq_refl c.message,
)

pub same_state_self : (c : Condition) → has_same_state c c ≡ true
unfolding has_same_state
same_state_self c = simp eq_refl

-- The object is, under the type of the operation, as the operation expects it.
abbrev pub IsExpected : Conditions → PatchOperation → Type 0
IsExpected cs (add_condition_patch after) = find after.type cs ≡ none
IsExpected cs (change_condition_patch after before) = find after.type cs ≡ some before
IsExpected cs (remove_condition_patch before) = find before.type cs ≡ some before

expected_operation :
    (now : Time) (o : ApplyOptions) (cs : Conditions) (op : PatchOperation)
    → IsExpected cs op
    → (apply_operation now o cs op).error ≡ none
unfolding apply_operation
expected_operation now o cs (add_condition_patch after) h = ground arith
expected_operation now o cs (change_condition_patch after before) h =
    ground (arith, deep_equal_self before)
expected_operation now o cs (remove_condition_patch before) h =
    ground (arith, same_state_self before)

-- Where each type occurs at most once, an operation leaves the conditions of the types other than
-- its own as they are, times included.
operation_frame :
    (now : Time) (o : ApplyOptions) (cs : Conditions) (op : PatchOperation) (t : ConditionType)
    → Distinct cs
    → (target_type op == t) ≡ false
    → find t (apply_operation now o cs op).latest ≡ find t cs
unfolding apply_operation
operation_frame now o cs (add_condition_patch after) t d n =
    ground (arith, find-set now cs after t d)
operation_frame now o cs (change_condition_patch after before) t d n =
    ground (arith, find-set now cs after t d)
operation_frame now o cs (remove_condition_patch before) t d n =
    ground (arith, find-delete cs before.type t)

pub IsExpected-agree :
    (cs ds : Conditions) (op : PatchOperation)
    → find (target_type op) cs ≡ find (target_type op) ds
    → IsExpected ds op
    → IsExpected cs op
IsExpected-agree cs ds (add_condition_patch after) e h = e ∙ h
IsExpected-agree cs ds (change_condition_patch after before) e h = e ∙ h
IsExpected-agree cs ds (remove_condition_patch before) e h = e ∙ h

abbrev pub Avoids : ConditionType → List PatchOperation → Type 0
Avoids t ops = All (λ op. (t == target_type op) ≡ false) ops

abbrev pub AreDistinct : List PatchOperation → Type 0
AreDistinct [] = Unit
AreDistinct (op ∷ ops) = Avoids (target_type op) ops × AreDistinct ops

pub IsExpected-after :
    (now : Time) (o : ApplyOptions) (cs : Conditions) (op : PatchOperation)
    (ops : List PatchOperation)
    → Distinct cs
    → Avoids (target_type op) ops
    → All (λ p. IsExpected cs p) ops
    → All (λ p. IsExpected (apply_operation now o cs op).latest p) ops
IsExpected-after now o cs op [] d a h = tt
IsExpected-after now o cs op (p ∷ ops) d a h = (
  IsExpected-agree (apply_operation now o cs op).latest cs p
      (operation_frame now o cs op (target_type p) d a.0) h.0,
  IsExpected-after now o cs op ops d a.1 h.1,
)

pub expected_loop :
    (now : Time) (o : ApplyOptions) (cs : Conditions) (ops : List PatchOperation)
    → Distinct cs
    → AreDistinct ops
    → All (λ p. IsExpected cs p) ops
    → (apply_loop now o cs ops).error ≡ none
unfolding apply_loop
expected_loop now o cs [] d a h = refl
expected_loop now o cs (op ∷ ops) d a h =
    rw (expected_operation now o cs op h.0, apply_loop)
      (expected_loop now o (apply_operation now o cs op).latest ops
        (operation-Distinct now o cs d op) a.1 (IsExpected-after now o cs op ops d a.0 h.1))
