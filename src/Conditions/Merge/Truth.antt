-- ===== src/Conditions/Merge/Truth.antt =====
-- When the merged condition is True.
use mathlib.Core.List.{Mem, not-mem-nil}
use cluster_api_provider_vcl.Base.{◌≤◌, ◌≡◌, ◌↔◌, ◌∙◌, Option, some, List, arith, eq_iff, inl, inr}
use cluster_api_provider_vcl.Base.Lists.{All, All_mem}
use mathlib.Core.Path.{subst}
use native.Mathlib.Bridge.{le_prop}
use cluster_api_provider_vcl.Api.Condition.{
  Condition, ConditionType, condition_true, condition_false,
}
use cluster_api_provider_vcl.Conditions.Groups.{LocalizedCondition, merge_priority}
use cluster_api_provider_vcl.Conditions.Groups.Partition.{present}
use cluster_api_provider_vcl.Conditions.Groups.Priority.{priority}
use cluster_api_provider_vcl.Conditions.Merge.{MergeOptions, merge}
use cluster_api_provider_vcl.Conditions.Merge.Verdict.{merge-Decides, IsBest}

-- The best priority is at most that of any condition.
best_bound :
    (c d : LocalizedCondition) (cs : List LocalizedCondition)
    → IsBest c cs
    → Mem d cs
    → priority c ≤ priority d
best_bound c d cs b m = All_mem (λ x. priority c ≤ priority x) (λ x. le_prop) cs b.1 m

pub priority_three :
    (c : LocalizedCondition) → (priority c ≡ 3) ↔ (c.condition.status ≡ condition_true)
unfolding priority merge_priority
priority_three c = (
  λ h.
      ground (
        arith,
        eq_iff c.condition.status condition_false,
        eq_iff c.condition.status condition_true,
      ),
  λ h. rw h,
)

-- Where every priority is at least that of a True condition, so that no condition is False
-- with the severity Error, Warning or Info, one True condition makes the merged one a True
-- condition of the target type.
pub merge_true :
    (cs : List (Option LocalizedCondition)) (target : ConditionType) (o : MergeOptions)
    (d : LocalizedCondition)
    → Mem d (present cs)
    → d.condition.status ≡ condition_true
    → All (λ c. 3 ≤ priority c) (present cs)
    → (r : Condition) × (merge cs target o ≡ some r)
      × (r.type ≡ target)
      × (r.status ≡ condition_true)
merge_true cs target o d m s h = elim (merge-Decides cs target o) [
  | inl (_, e) ↦ absurd (not-mem-nil (subst (Mem d) e m))
  | inr (c, r, best, e, dec) ↦
      let z : priority c ≡ 3 = omega (
        arith,
        best_bound c d (present cs) best m,
        (priority_three d).1 s,
        All_mem (λ c. 3 ≤ priority c) (λ x. le_prop) (present cs) h best.0,
      ) in
      (r, e, dec.0, dec.1 ∙ rw ((priority_three c).0 z))
]
