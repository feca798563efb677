-- ===== src/Conditions/Patch/Stamped.antt =====
-- The operations that `Apply` leaves, which carry the transition times of its writes.
use cluster_api_provider_vcl.Base.{
  ◌≡◌, ◌∙◌, refl, ap, Option, none, some, List, [], ◌∷◌, arith, inl, inr,
}
use cluster_api_provider_vcl.Base.Tests.{Option-cases}
use cluster_api_provider_vcl.Api.Condition.{Condition, Conditions, ConditionType, Time}
use cluster_api_provider_vcl.Conditions.Getter.{find}
use cluster_api_provider_vcl.Conditions.Setter.{set}
use cluster_api_provider_vcl.Conditions.Setter.Lookup.{set-written}
use cluster_api_provider_vcl.Conditions.Patch.{
  PatchOperation, add_condition_patch, change_condition_patch, remove_condition_patch, ApplyOptions,
  apply_operation, apply_loop,
}
use cluster_api_provider_vcl.Conditions.Patch.State.{
  untimed, untimed-written, target_type, target_state,
}
use cluster_api_provider_vcl.Conditions.Patch.Merging.{effect}

untimed-set : (now : Time) (cs : Conditions) (c : Condition) → untimed (set now cs c).1 ≡ untimed c
untimed-set now cs c = ap untimed (set-written now cs c) ∙ untimed-written now (find c.type cs) c

-- An operation with the same target.
abbrev SameTarget : PatchOperation → PatchOperation → Type 0
SameTarget p q = (target_type p ≡ target_type q) × (target_state p ≡ target_state q)

put_target :
    (now : Time) (cs : Conditions) (c : Condition)
    → ((set now cs c).1.type ≡ c.type) × (some (untimed (set now cs c).1) ≡ some (untimed c))
put_target now cs c =
    (ap (λ (x : Condition). x.type) (untimed-set now cs c), ap some (untimed-set now cs c))

operation_stamped :
    (now : Time) (o : ApplyOptions) (cs : Conditions) (op : PatchOperation)
    → SameTarget (apply_operation now o cs op).operation op
unfolding apply_operation
operation_stamped now o cs (add_condition_patch after) =
    let (p, q) = put_target now cs after in (ground (arith, p), ground (arith, q))
operation_stamped now o cs (change_condition_patch after before) =
    let (p, q) = put_target now cs after in (ground (arith, p), ground (arith, q))
operation_stamped now o cs (remove_condition_patch before) = (ground arith, ground arith)

-- The patch that `Apply` leaves without an error has the effect of the one that it was given.
pub effect-stamped :
    (now : Time) (o : ApplyOptions) (cs : Conditions) (ops : List PatchOperation)
    → (apply_loop now o cs ops).error ≡ none
    → (t : ConditionType) (x : Option Condition)
    → effect t (apply_loop now o cs ops).patch x ≡ effect t ops x
unfolding apply_loop effect
effect-stamped now o cs [] h t x = refl
effect-stamped now o cs (op ∷ ops) h t x = elim (Option-cases (apply_operation now o cs op).error) [
  | inl e ↦
      let (p, q) = operation_stamped now o cs op in
      rw (e, apply_loop, p, q)
        (effect-stamped now o (apply_operation now o cs op).latest ops (rw (e, apply_loop) at h) t
          _)
  | inr (y, e) ↦ ground arith
]
